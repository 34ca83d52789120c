-- ===== src/Base/Equality.antt =====
-- Equality tests on the keys of maps, as an interface with instances.
use game_server_go.Base.{
  ℕ, ◌≡◌, refl, ◌↔◌, Bool, true, false, List, [], ◌∷◌, arith, ◌==◌ as nat_beq, ==_iff,
  if◌then◌else◌,
}
use game_server_go.Base.Int.{ℤ, eqb_ℤ, eqb_ℤ_iff}

pub record Eq {κ} (K : Type κ) : Type κ where
  pub beq : K → K → Bool
  pub beq_iff : (j k : K) → (beq j k ≡ true) ↔ (j ≡ k)

infix 50 ◌==◌
abbrev pub ◌==◌ {κ} : {K : Type κ} ⦃keys : Eq K⦄ → K → K → Bool
◌==◌ ⦃keys⦄ = keys.beq

pub beq_refl {ℓ} : {A : Type ℓ} ⦃e : Eq A⦄ (a : A) → (a == a) ≡ true
beq_refl ⦃e⦄ a = (e.beq_iff a a).1 refl

instance abbrev pub nat_eq : Eq ℕ
nat_eq = record { beq = nat_beq; beq_iff = ==_iff }

instance abbrev pub int_eq : Eq ℤ
int_eq = record { beq = eqb_ℤ; beq_iff = eqb_ℤ_iff }

-- Go strings and byte slices: lists of byte values.
unfoldable pub bytes_beq : List ℕ → List ℕ → Bool
bytes_beq [] [] = true
bytes_beq (a ∷ xs) (b ∷ ys) = if nat_beq a b then bytes_beq xs ys else false
bytes_beq _ _ = false

pub bytes_beq_iff : (a b : List ℕ) → (bytes_beq a b ≡ true) ↔ (a ≡ b)
unfolding bytes_beq
bytes_beq_iff [] [] = (λ h. refl, λ h. refl)
bytes_beq_iff [] (b ∷ ys) = (λ h. cc, λ h. cc)
bytes_beq_iff (a ∷ xs) [] = (λ h. cc, λ h. cc)
bytes_beq_iff (a ∷ xs) (b ∷ ys) =
    (λ h. ground (arith, bytes_beq_iff xs ys), λ h. ground (arith, bytes_beq_iff xs ys))

instance abbrev pub bytes_eq : Eq (List ℕ)
bytes_eq = record { beq = bytes_beq; beq_iff = bytes_beq_iff }
