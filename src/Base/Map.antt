-- ===== src/Base/Map.antt =====
-- Go maps as association lists. A key stands once at most; no code here depends on the order.
use game_server_go.Base.{◌≡◌, Option, none, some, List, [], ◌∷◌, arith, if◌then◌else◌, false}
use game_server_go.Base.Equality.{Eq, ◌==◌, beq_refl}

abbrev pub Map {ℓ κ} : Type ℓ → Type κ → Type (ℓ ⊔ κ)
Map K V = List (K × V)

module _ {ℓ κ} {K : Type ℓ} {V : Type κ} ⦃e : Eq K⦄ where
  -- v, ok := m[k]
  unfoldable pub get : K → Map K V → Option V
  get k [] = none
  get k ((j, v) ∷ m) = if j == k then some v else get k m

  -- delete(m, k)
  unfoldable pub delete : K → Map K V → Map K V
  delete k [] = []
  delete k ((j, v) ∷ m) = let rest = delete k m in if j == k then rest else (j, v) ∷ rest

  -- m[k] = v
  unfoldable pub put : K → V → Map K V → Map K V
  put k v m = (k, v) ∷ delete k m

  pub get-delete : (k j : K) (m : Map K V) → get j (delete k m) ≡ (if k == j then none else get j m)
  unfolding get delete
  get-delete k j [] = ground arith
  get-delete k j ((i, v) ∷ m) =
      ground (arith, get-delete k j m, e.beq_iff i k, e.beq_iff i j, e.beq_iff k j)

  pub get-put :
      (k j : K) (v : V) (m : Map K V) → get j (put k v m) ≡ (if k == j then some v else get j m)
  unfolding get put
  get-put k j v m = ground (arith, get-delete k j m)

  pub get-put_self : (k : K) (v : V) (m : Map K V) → get k (put k v m) ≡ some v
  unfolding get put
  get-put_self k v m = ground (arith, beq_refl k)

  pub get-put_other :
      (k j : K) (v : V) (m : Map K V) → (k == j) ≡ false → get j (put k v m) ≡ get j m
  get-put_other k j v m apart = ground (arith, get-put k j v m)
