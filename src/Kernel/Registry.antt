-- ===== src/Kernel/Registry.antt =====
-- What registration in internal/kernel/kernel.go admits, and what it leaves alone.
use mathlib.Core.Path.{subst}
use game_server_go.Base.{
  ℕ, ◌+◌, ◌≡◌, refl, ◌∙◌, inl, inr, false, Bool-cases, Option-cases, List, [], ◌∷◌, none, some, ok,
  arith, All, if◌then◌else◌,
}
use game_server_go.Base.Equality.{◌==◌, nat_eq}
use game_server_go.Base.Map.{get, get-put}
use game_server_go.Messages.{MsgType, same_type, same_type_iff}
use game_server_go.Protocol.Routes.{Route, route_for}
use game_server_go.Protocol.Routes.Canonical.{route_for-IsCanonical}
use game_server_go.Kernel.{
  Kernel, Handler, store_entry, HandlerEntry, HandlerValue, typed, ill_typed, RegisterOption,
  register, register_found, install, apply_options, auth_free_option,
}

module _ {W : Type 0} where
  -- An option that leaves the route of an entry as it is. The package has one option, AuthFree.
  abbrev pub KeepsRoute : RegisterOption W → Type 0
  KeepsRoute opt =
      (e : HandlerEntry W) → ((opt e).resp_id ≡ e.resp_id) × ((opt e).req_type ≡ e.req_type)

  pub auth_free_option-KeepsRoute : KeepsRoute auth_free_option
  unfolding auth_free_option
  auth_free_option-KeepsRoute e = (refl, refl)

  apply_options-KeepsRoute :
      (opts : List (RegisterOption W)) → All KeepsRoute opts → KeepsRoute (apply_options opts)
  unfolding apply_options
  apply_options-KeepsRoute [] h e = (refl, refl)
  apply_options-KeepsRoute (opt ∷ opts) h e =
      let (p, q) = apply_options-KeepsRoute opts h.1 (opt e) in (p ∙ (h.0 e).0, q ∙ (h.0 e).1)

  -- Every handler stands under the request of a route, with the route's response and request type.
  abbrev pub IsRouted : Kernel W → Type 0
  IsRouted k =
      (id : ℕ) (e : HandlerEntry W)
      → get id k.handlers ≡ some e
      → (r : Route) × (route_for id ≡ some r)
        × (e.resp_id ≡ r.response_id)
        × (e.req_type ≡ r.request_prototype)

  -- What a successful registration has checked and changed.
  pub record Registers (k k' : Kernel W) (id resp_id : ℕ) (opts : List (RegisterOption W))
      : Type 0 where
    pub route : Route
    pub entry : HandlerEntry W
    pub was_free : get id k.handlers ≡ none
    pub routed : route_for id ≡ some route
    pub paired : route.response_id ≡ resp_id
    pub entry_resp : entry.resp_id ≡ resp_id
    pub entry_type : entry.req_type ≡ route.request_prototype
    pub hooks_kept : k'.hooks ≡ k.hooks
    pub table :
        (j : ℕ)
        → get j k'.handlers
          ≡ (if id == j then some (apply_options opts entry) else get j k.handlers)

  store_entry-Registers :
      (k : Kernel W) (id : ℕ) (r : Route) (req : MsgType) (fn : Handler W)
      (opts : List (RegisterOption W))
      → get id k.handlers ≡ none
      → route_for id ≡ some r
      → req ≡ r.request_prototype
      → Registers k (store_entry k id r req fn opts) id r.response_id opts
  store_entry-Registers k id r req fn opts free routed same = record {
    route = r;
    entry = record { resp_id = r.response_id; req_type = req; fn = fn; auth_free = false };
    was_free = free;
    routed = routed;
    paired = refl;
    entry_resp = refl;
    entry_type = same;
    hooks_kept = refl;
    table = λ j. get-put id j _ k.handlers;
  }

  install_lem :
      (k k' : Kernel W) (id : ℕ) (r : Route) (fn : HandlerValue W) (opts : List (RegisterOption W))
      → get id k.handlers ≡ none
      → route_for id ≡ some r
      → install k id r fn opts ≡ ok k'
      → Registers k k' id r.response_id opts
  unfolding install
  install_lem k k' id r ill_typed opts free routed e = cc
  install_lem k k' id r (typed req resp fn) opts free routed e =
      elim (Bool-cases (same_type req r.request_prototype)) [
        | inr x ↦ absurd (ground arith)
        | inl x ↦
            let stored : store_entry k id r req fn opts ≡ k' = ground arith in
            subst (λ q. Registers k q id r.response_id opts) stored
              (store_entry-Registers k id r req fn opts free routed ((same_type_iff _ _).0 x))
      ]

  -- A registration succeeds only for a free identifier with a route whose response and request type
  -- are those given; it then adds that one entry, with the options applied, and changes no other.
  pub register-Registers :
      (k k' : Kernel W) (id resp_id : ℕ) (fn : HandlerValue W) (opts : List (RegisterOption W))
      → register k id resp_id fn opts ≡ ok k'
      → Registers k k' id resp_id opts
  unfolding register register_found
  register-Registers k k' id resp_id fn opts e = elim (Option-cases (get id k.handlers)) [
    | inr (old, x) ↦ absurd (ground arith)
    | inl free ↦ elim (Option-cases (route_for id)) [
      | inl x ↦ absurd (ground arith)
      | inr (r, x) ↦
          let paired : r.response_id ≡ resp_id = ground arith in
          subst (λ p. Registers k k' id p opts) paired
            (install_lem k k' id r fn opts free x (ground arith))
    ]
  ]

  -- Registration keeps every handler routed, whatever is registered and in whatever order.
  pub register-IsRouted :
      (k k' : Kernel W) (id resp_id : ℕ) (fn : HandlerValue W) (opts : List (RegisterOption W))
      → IsRouted k
      → All KeepsRoute opts
      → register k id resp_id fn opts ≡ ok k'
      → IsRouted k'
  register-IsRouted k k' id resp_id fn opts routed keep e j entry found =
      let g = register-Registers k k' id resp_id fn opts e in
      let (same_resp, same_req) = apply_options-KeepsRoute opts keep g.entry in
      elim (Bool-cases (id == j)) [
        | inr x ↦ routed j entry (ground (arith, g.table j))
        | inl x ↦
            let here : id ≡ j = (nat_eq.beq_iff id j).0 x in
            let is : apply_options opts g.entry ≡ entry = ground (arith, g.table j) in
            (
              g.route,
              rw (← here) g.routed,
              ground (arith, g.paired, g.entry_resp),
              ground (arith, g.entry_type),
            )
      ]

  -- A routed handler answers with the identifier that follows its request.
  pub IsRouted-pairs :
      (k : Kernel W) (id : ℕ) (e : HandlerEntry W)
      → IsRouted k
      → get id k.handlers ≡ some e
      → e.resp_id ≡ id + 1
  IsRouted-pairs k id e routed found =
      let (r, at_route, same, _) = routed id e found in
      let (canonical, at_id) = route_for-IsCanonical id r at_route in
      omega (arith, same, canonical.paired, at_id)
