-- ===== src/Protocol/Routes/Canonical.antt =====
-- What every entry of the route table of internal/protocol/routes.go has in common.
use mathlib.Core.Path.{subst}
use game_server_go.Base.{
  ℕ, ◌+◌, ◌≡◌, Bool, true, false, List, [], ◌∷◌, none, some, Bool-cases, inl, inr, arith, All, ◌==◌,
  ==_iff, if◌then◌else◌,
}
use game_server_go.Protocol.Routes.{Route, canonical_routes, find_route, route_for, all_message_ids}

abbrev pub listed : ℕ → List ℕ → Bool
listed id [] = false
listed id (x ∷ xs) = if x == id then true else listed id xs

-- An entry of the table is found by its request; its response has the next identifier, is itself no
-- request, and both are message identifiers of the protocol.
pub record IsCanonical (r : Route) : Type 0 where
  pub found : route_for r.request_id ≡ some r
  pub paired : r.response_id ≡ r.request_id + 1
  pub no_request : route_for r.response_id ≡ none
  pub request_listed : listed r.request_id all_message_ids ≡ true
  pub response_listed : listed r.response_id all_message_ids ≡ true

table_IsCanonical : All IsCanonical canonical_routes
unfolding canonical_routes route_for all_message_ids
table_IsCanonical = ground arith

find_route_lem {ℓ} :
    (P : Route → Type ℓ) (rs : List Route) (id : ℕ) (r : Route)
    → All P rs
    → find_route rs id ≡ some r
    → P r × (r.request_id ≡ id)
unfolding find_route
find_route_lem P [] id r h e = cc
find_route_lem P (x ∷ xs) id r h e = elim (Bool-cases (x.request_id == id)) [
  | inl hit ↦
      let e' : some x ≡ some r = rw hit at e in
      let same : x ≡ r = cc in
      subst (λ s. P s × (s.request_id ≡ id)) same (h.0, (==_iff x.request_id id).0 hit)
  | inr miss ↦ find_route_lem P xs id r h.1 (rw miss at e)
]

-- Whatever route a lookup finds is an entry for the identifier that was looked up: its response has
-- the next identifier, which is no request, both are listed message identifiers, and looking the
-- request up again finds the same entry, so no two entries share a request.
pub route_for-IsCanonical :
    (id : ℕ) (r : Route) → route_for id ≡ some r → IsCanonical r × (r.request_id ≡ id)
unfolding route_for
route_for-IsCanonical id r e = find_route_lem IsCanonical canonical_routes id r table_IsCanonical e
