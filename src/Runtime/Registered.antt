-- ===== src/Runtime/Registered.antt =====
-- The kernels that the registrations of cmd/server/main.go make, in production and in development.
use game_server_go.Base.{
  ℕ, inl, inr, Bool-cases, Option-cases, if◌then◌else◌, ◌∙◌, sym, ◌≡◌, refl, Bool, true, false,
  none, some, ok, arith, List, [], ◌∷◌, Option, ◌==◌, ◌||◌,
}
use game_server_go.Base.Equality.{nat_eq}
use game_server_go.Base.Map.{Map, get, put, delete}
use game_server_go.Messages.{same_type}
use game_server_go.Kernel.{
  Kernel, Handler, new_kernel, register_route, register, apply_options, auth_free_option,
  is_auth_free, has_handler,
}
use game_server_go.Protocol.Ids.{id_login_req, id_heartbeat_req}
use game_server_go.Protocol.Routes.{Route, find_route, route_for, canonical_routes}
use game_server_go.Pipeline.{no_hooks}
use game_server_go.Runtime.{payment_route, development_routes, register_all, production_routes}

pub routed : Option Route → Bool
routed none = false
routed (some r) = true

contains : List ℕ → ℕ → Bool
contains [] id = false
contains (x ∷ xs) id = if x == id then true else contains xs id

keys : {V : Type 0} → Map ℕ V → List ℕ
keys [] = []
keys ((k, v) ∷ m) = k ∷ keys m

request_ids : List Route → List ℕ
request_ids [] = []
request_ids (r ∷ rs) = r.request_id ∷ request_ids rs

is_some : {V : Type 0} → Option V → Bool
is_some none = false
is_some (some v) = true

get-contains : {V : Type 0} (m : Map ℕ V) (id : ℕ) → is_some (get id m) ≡ contains (keys m) id
unfolding is_some get contains keys
get-contains [] id = refl
get-contains ((k, v) ∷ m) id = elim (Bool-cases (k == id)) [
  | inl here ↦ rw here refl
  | inr later ↦ rw later (get-contains m id)
]

find_route-contains :
    (rs : List Route) (id : ℕ) → routed (find_route rs id) ≡ contains (request_ids rs) id
unfolding routed find_route contains request_ids
find_route-contains [] id = refl
find_route-contains (r ∷ rs) id = elim (Bool-cases (r.request_id == id)) [
  | inl here ↦ rw here refl
  | inr later ↦ rw later (find_route-contains rs id)
]

is_subset : List ℕ → List ℕ → Bool
unfolding contains
is_subset [] ys = true
is_subset (x ∷ xs) ys = if contains ys x then is_subset xs ys else false

is_subset-contains :
    (xs ys : List ℕ) (id : ℕ)
    → is_subset xs ys ≡ true
    → contains xs id ≡ true
    → contains ys id ≡ true
unfolding is_subset contains
is_subset-contains [] ys id h c = absurd cc
is_subset-contains (x ∷ xs) ys id h c = ground (arith, is_subset-contains xs ys id)

same_contains :
    (xs ys : List ℕ) (id : ℕ)
    → is_subset xs ys ≡ true
    → is_subset ys xs ≡ true
    → contains xs id ≡ contains ys id
same_contains xs ys id h k =
    ground (arith, is_subset-contains xs ys id h, is_subset-contains ys xs id k)

has_handler_lem :
    {W : Type 0} (k : Kernel W) (id : ℕ) → has_handler k id ≡ is_some (get id k.handlers)
unfolding has_handler is_some
has_handler_lem k id = elim (Option-cases (get id k.handlers)) [
  | inl e ↦ ground (arith, e)
  | inr (v, e) ↦ ground (arith, e)
]

covers_routes :
    {W : Type 0} (k : Kernel W) (id : ℕ)
    → is_subset (keys k.handlers) (request_ids canonical_routes) ≡ true
    → is_subset (request_ids canonical_routes) (keys k.handlers) ≡ true
    → has_handler k id ≡ routed (route_for id)
unfolding route_for
covers_routes k id h g =
    has_handler_lem k id
    ∙ get-contains k.handlers id
    ∙ same_contains (keys k.handlers) (request_ids canonical_routes) id h g
    ∙ sym (find_route-contains canonical_routes id)

-- In production the registrations do not panic. The kernel then has a handler for a request exactly
-- where the route table has one, and the login and the heartbeat alone pass without authentication.
pub production_routes_lem :
    {W : Type 0} (fn : ℕ → Handler W) (id : ℕ)
    → (k : Kernel W) × (register_all
          (payment_route fn ∷ production_routes fn)
          (new_kernel (some no_hooks))
        ≡ ok k)
      × (has_handler k id ≡ routed (route_for id))
      × (is_auth_free k.handlers id ≡ ((id == id_login_req) || (id == id_heartbeat_req)))
unfolding register_all production_routes payment_route new_kernel register_route register
    apply_options auth_free_option is_auth_free get put delete route_for same_type is_subset keys
    request_ids contains canonical_routes
production_routes_lem fn id = (_, refl, covers_routes _ id refl refl, ground arith)

-- The registrations of the payment handler and then of either mode.
pub record Kernels {W : Type 0} (fn : ℕ → Handler W) : Type 0 where
  pub first : Kernel W
  pub in_development : Kernel W
  pub in_production : Kernel W
  pub is_first : register_all (payment_route fn ∷ []) (new_kernel (some no_hooks)) ≡ ok first
  pub is_development : register_all (development_routes fn) first ≡ ok in_development
  pub is_production : register_all (production_routes fn) first ≡ ok in_production
  pub unhooked_development : in_development.hooks ≡ record { before = []; after = [] }
  pub unhooked_production : in_production.hooks ≡ record { before = []; after = [] }

pub kernels : {W : Type 0} (fn : ℕ → Handler W) → Kernels fn
unfolding register_all development_routes production_routes payment_route new_kernel register_route
    register apply_options auth_free_option get put delete route_for same_type no_hooks
kernels fn = record {
  first = _;
  in_development = _;
  in_production = _;
  is_first = refl;
  is_development = refl;
  is_production = refl;
  unhooked_development = refl;
  unhooked_production = refl;
}
