-- ===== src/Base/Float.antt =====
-- IEEE 754 values as bit patterns. Comparisons and tests read the pattern; the rounded arithmetic
-- and the conversions are the hardware's, and are the parameter `FloatOps`.
use game_server_go.Base.{ℕ, ◌-◌, ◌/◌, ◌%◌, ◌^◌, Bool, false, ◌==◌, ltb, if◌then◌else◌}
use game_server_go.Base.Int.{ℤ, pos, negsuc, ltb_ℤ}

abbrev pub Float32 : Type 0
Float32 = ℕ

abbrev pub Float64 : Type 0
Float64 = ℕ

-- The bits below the sign.
magnitude : Float64 → ℕ
magnitude x = x % 2 ^ 63

is_negative : Float64 → Bool
is_negative x = x / 2 ^ 63 == 1

-- math.IsNaN
unfoldable pub is_nan : Float64 → Bool
unfolding magnitude
is_nan x = ltb 0x7ff0_0000_0000_0000 (magnitude x)

-- math.IsInf with sign 0
unfoldable pub is_inf : Float64 → Bool
unfolding magnitude
is_inf x = magnitude x == 0x7ff0_0000_0000_0000

-- Values that are no NaN are ordered as their sign and magnitude are; -0 equals 0.
minus : ℕ → ℤ
minus n = if n == 0 then pos 0 else negsuc (n - 1)

float_key : Float64 → ℤ
unfolding magnitude is_negative minus
float_key x = if is_negative x then minus (magnitude x) else pos (magnitude x)

-- x < y, which is false where either is NaN.
unfoldable pub float_lt : Float64 → Float64 → Bool
unfolding is_nan float_key ltb_ℤ
float_lt x y =
    if is_nan x then false else if is_nan y then false else ltb_ℤ (float_key x) (float_key y)

pub record FloatOps : Type 0 where
  pub of_int : ℤ → Float64
  pub add : Float64 → Float64 → Float64
  pub mul : Float64 → Float64 → Float64
  pub to_float32 : Float64 → Float32
  pub of_float32 : Float32 → Float64
  pub to_int32 : Float64 → ℤ
  pub to_int64 : Float64 → ℤ
