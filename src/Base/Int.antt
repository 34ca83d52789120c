-- ===== src/Base/Int.antt =====
-- Go's signed integers: ℤ over the native numbers, and the wrap-around of int32 and int64.
use game_server_go.Base.{
  ℕ, suc, ◌+◌, ◌-◌, ◌*◌, ◌%◌, ◌^◌, ◌≤◌, ◌<◌, ◌≡◌, refl, ◌↔◌, Bool, true, false, arith, ltb, leb,
  if◌then◌else◌,
}

-- `negsuc n` is -(n + 1).
pub data ℤ : Type 0 where
  pos : ℕ → ℤ
  negsuc : ℕ → ℤ

abbrev pub pos_part : ℤ → ℕ
pos_part (pos n) = n
pos_part (negsuc n) = 0

abbrev pub neg_part : ℤ → ℕ
neg_part (pos n) = 0
neg_part (negsuc n) = suc n

-- a - b, as an integer.
abbrev pub sub_ℕ : ℕ → ℕ → ℤ
sub_ℕ a b = if leb b a then pos (a - b) else negsuc (b - a - 1)

infixl 65 ◌+ℤ◌ ◌-ℤ◌
infixl 70 ◌*ℤ◌
infix 50 ◌≤ℤ◌ ◌<ℤ◌
unfoldable pub ◌+ℤ◌ : ℤ → ℤ → ℤ
a +ℤ b = sub_ℕ (pos_part a + pos_part b) (neg_part a + neg_part b)

unfoldable pub ◌-ℤ◌ : ℤ → ℤ → ℤ
a -ℤ b = sub_ℕ (pos_part a + neg_part b) (neg_part a + pos_part b)

unfoldable pub ◌*ℤ◌ : ℤ → ℤ → ℤ
a *ℤ b =
    sub_ℕ (pos_part a * pos_part b + neg_part a * neg_part b)
      (pos_part a * neg_part b + neg_part a * pos_part b)

abbrev pub ◌≤ℤ◌ : ℤ → ℤ → Type 0
a ≤ℤ b = pos_part a + neg_part b ≤ pos_part b + neg_part a

abbrev pub ◌<ℤ◌ : ℤ → ℤ → Type 0
a <ℤ b = pos_part a + neg_part b < pos_part b + neg_part a

-- `a < b`, `a <= b` and `a == b` of the source.
unfoldable pub ltb_ℤ : ℤ → ℤ → Bool
ltb_ℤ a b = ltb (pos_part a + neg_part b) (pos_part b + neg_part a)

unfoldable pub leb_ℤ : ℤ → ℤ → Bool
leb_ℤ a b = leb (pos_part a + neg_part b) (pos_part b + neg_part a)

unfoldable pub eqb_ℤ : ℤ → ℤ → Bool
eqb_ℤ a b = if leb_ℤ a b then leb_ℤ b a else false

pub ltb_ℤ_iff : (a b : ℤ) → (ltb_ℤ a b ≡ true) ↔ (a <ℤ b)
unfolding ltb_ℤ
ltb_ℤ_iff a b = ground arith

pub leb_ℤ_iff : (a b : ℤ) → (leb_ℤ a b ≡ true) ↔ (a ≤ℤ b)
unfolding leb_ℤ
leb_ℤ_iff a b = ground arith

pub eqb_ℤ_iff : (a b : ℤ) → (eqb_ℤ a b ≡ true) ↔ (a ≡ b)
unfolding eqb_ℤ leb_ℤ
eqb_ℤ_iff a b = ground arith

-- The tests read as orders where they fail.
pub leb_ℤ_false : (a b : ℤ) → leb_ℤ a b ≡ false → b <ℤ a
unfolding leb_ℤ
leb_ℤ_false a b h = ground arith

pub ltb_ℤ_false : (a b : ℤ) → ltb_ℤ a b ≡ false → b ≤ℤ a
unfolding ltb_ℤ
ltb_ℤ_false a b h = ground arith

pub eqb_ℤ_false : (a b : ℤ) → eqb_ℤ a b ≡ false → a ≤ℤ b → a <ℤ b
unfolding eqb_ℤ leb_ℤ
eqb_ℤ_false a b h le = ground arith

-- The tests decided by an order.
pub ltb_ℤ-eq-true : (a b : ℤ) → a <ℤ b → ltb_ℤ a b ≡ true
ltb_ℤ-eq-true a b h = (ltb_ℤ_iff a b).1 h

pub ltb_ℤ-eq-false : (a b : ℤ) → b ≤ℤ a → ltb_ℤ a b ≡ false
unfolding ltb_ℤ
ltb_ℤ-eq-false a b h = ground arith

pub eqb_ℤ-eq-false : (a b : ℤ) → a <ℤ b → eqb_ℤ a b ≡ false
unfolding eqb_ℤ leb_ℤ
eqb_ℤ-eq-false a b h = ground arith

-- One lemma for each operation lets `omega` work with the operations shut.
pub +ℤ_parts :
    (a b : ℤ)
    → pos_part (a +ℤ b) + neg_part a + neg_part b ≡ neg_part (a +ℤ b) + pos_part a + pos_part b
unfolding ◌+ℤ◌
+ℤ_parts a b = ground arith

pub -ℤ_parts :
    (a b : ℤ)
    → pos_part (a -ℤ b) + neg_part a + pos_part b ≡ neg_part (a -ℤ b) + pos_part a + neg_part b
unfolding ◌-ℤ◌
-ℤ_parts a b = ground arith

pub eq_of_parts : (a b : ℤ) → pos_part a + neg_part b ≡ pos_part b + neg_part a → a ≡ b
eq_of_parts a b h = ground arith

pub ruleset int_laws = (arith, +ℤ_parts, -ℤ_parts, eq_of_parts)

-- The bounds of the machine integers, as math.MaxInt32 and its kin name them.
abbrev pub max_int32 : ℤ
max_int32 = pos 2147483647

abbrev pub min_int32 : ℤ
min_int32 = negsuc 2147483647

abbrev pub max_int64 : ℤ
max_int64 = pos 9223372036854775807

abbrev pub min_int64 : ℤ
min_int64 = negsuc 9223372036854775807

abbrev pub InInt32 : ℤ → Type 0
InInt32 z = (min_int32 ≤ℤ z) × (z ≤ℤ max_int32)

abbrev pub InInt64 : ℤ → Type 0
InInt64 z = (min_int64 ≤ℤ z) × (z ≤ℤ max_int64)

-- The bit pattern of an integer modulo `m`, and the signed integer that a pattern stands for.
abbrev pattern_of : ℕ → ℤ → ℕ
pattern_of m (pos n) = n % m
pattern_of m (negsuc n) = m - 1 - n % m

abbrev signed_of : ℕ → ℕ → ℕ → ℤ
signed_of m half x = if ltb x half then pos x else negsuc (m - x - 1)

-- What an int32 or int64 holds after an operation whose exact result is `z`.
unfoldable pub wrap32 : ℤ → ℤ
wrap32 z = signed_of 4294967296 2147483648 (pattern_of 4294967296 z)

unfoldable pub wrap64 : ℤ → ℤ
wrap64 z = signed_of 18446744073709551616 9223372036854775808 (pattern_of 18446744073709551616 z)

pub wrap32_id : (z : ℤ) → min_int32 ≤ℤ z → z ≤ℤ max_int32 → wrap32 z ≡ z
unfolding wrap32
wrap32_id (pos n) lo hi = ground arith
wrap32_id (negsuc n) lo hi = ground arith

pub wrap64_id : (z : ℤ) → min_int64 ≤ℤ z → z ≤ℤ max_int64 → wrap64 z ≡ z
unfolding wrap64
wrap64_id (pos n) lo hi = ground arith
wrap64_id (negsuc n) lo hi = ground arith

pub wrap32-InInt32 : (z : ℤ) → InInt32 (wrap32 z)
unfolding wrap32
wrap32-InInt32 (pos n) = ground arith
wrap32-InInt32 (negsuc n) = ground arith

pub wrap64-InInt64 : (z : ℤ) → InInt64 (wrap64 z)
unfolding wrap64
wrap64-InInt64 (pos n) = ground arith
wrap64-InInt64 (negsuc n) = ground arith

-- Products of numbers that are not negative.
pub *ℤ-pos : (m n : ℕ) → pos m *ℤ pos n ≡ pos (m * n)
unfolding ◌*ℤ◌
*ℤ-pos m n = ground arith

pub pos_of_nonneg : (z : ℤ) → pos 0 ≤ℤ z → z ≡ pos (pos_part z)
pos_of_nonneg (pos n) h = refl
pos_of_nonneg (negsuc n) h = absurd (omega arith)
