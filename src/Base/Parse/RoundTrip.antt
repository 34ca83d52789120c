-- ===== src/Base/Parse/RoundTrip.antt =====
-- strconv.ParseInt reads back what strconv.FormatInt writes.
use native.Mathlib.Nat.{pow-succ'}
use game_server_go.Base.{
  ℕ, suc, zero, ◌+◌, ◌/◌, ◌%◌, ◌^◌, ◌≤◌, ◌<◌, ◌≡◌, refl, ◌∙◌, ap, [], ◌∷◌, arith, ltb, inl, inr,
  Bool-cases, ltb→lt,
}
use game_server_go.Base.Int.{ℤ, pos, negsuc, max_int64, min_int64, ◌≤ℤ◌}
use game_server_go.Base.Decimal.{format_int, digits_loop}
use game_server_go.Base.Text.{Bytes}
use game_server_go.Base.Parse.{
  parsed, scanned, scan, parse_uint, positive, negative, minus, parse_int, max_uint64,
}

scan_last :
    (n : ℕ) (out : Bytes) → n ≤ max_uint64 → scan ((48 + n % 10) ∷ out) (n / 10) ≡ scan out n
unfolding scan
scan_last n out h = ground arith

scan_digit : (n : ℕ) (out : Bytes) → n < 10 → scan ((48 + n) ∷ out) 0 ≡ scan out n
unfolding scan
scan_digit n out h = ground arith

scan-digits_loop :
    (fuel n : ℕ) (out : Bytes)
    → n ≤ max_uint64
    → n < 10 ^ fuel
    → scan (digits_loop fuel n out) 0 ≡ scan out n
unfolding digits_loop
scan-digits_loop zero n out fits small = ap (scan out) (omega arith)
scan-digits_loop (suc fuel) n out fits small = elim (Bool-cases (ltb n 10)) [
  | inl short ↦ rw short (scan_digit n out (ltb→lt n 10 short))
  | inr long ↦ rw long (
      scan-digits_loop fuel (n / 10) ((48 + n % 10) ∷ out) (omega arith)
        (omega (arith, pow-succ' 10 fuel))
      ∙ scan_last n out fits)
]

-- A text that begins with a digit.
abbrev DigitFirst : Bytes → Type 0
DigitFirst [] = ⊥
DigitFirst (c ∷ s) = (48 ≤ c) × (c ≤ 57)

digits_loop-DigitFirst :
    (fuel n : ℕ) (out : Bytes) → DigitFirst out → DigitFirst (digits_loop fuel n out)
unfolding digits_loop
digits_loop-DigitFirst zero n out d = d
digits_loop-DigitFirst (suc fuel) n out d = elim (Bool-cases (ltb n 10)) [
  | inl short ↦ rw short (omega (arith, ltb→lt n 10 short), omega (arith, ltb→lt n 10 short))
  | inr long ↦
      rw long
        (digits_loop-DigitFirst fuel (n / 10) ((48 + n % 10) ∷ out) (omega arith, omega arith))
]

digits-DigitFirst : (fuel n : ℕ) → DigitFirst (digits_loop (suc fuel) n [])
unfolding digits_loop
digits-DigitFirst fuel n = elim (Bool-cases (ltb n 10)) [
  | inl short ↦ rw short (omega (arith, ltb→lt n 10 short), omega (arith, ltb→lt n 10 short))
  | inr long ↦
      rw long (digits_loop-DigitFirst fuel (n / 10) ((48 + n % 10) ∷ []) (omega arith, omega arith))
]

parse_int_unsigned : (s : Bytes) → DigitFirst s → parse_int s ≡ positive (scan s 0)
unfolding parse_int parse_uint
parse_int_unsigned [] d = absurd d
parse_int_unsigned (c ∷ s) d = ground arith

parse_uint_digits : (s : Bytes) → DigitFirst s → parse_uint s ≡ scan s 0
unfolding parse_uint
parse_uint_digits [] d = absurd d
parse_uint_digits (c ∷ s) d = refl

scan-digits : (n : ℕ) → n ≤ max_uint64 → scan (digits_loop 20 n []) 0 ≡ scanned n
unfolding scan
scan-digits n fits = scan-digits_loop 20 n [] fits (omega arith)

parse_int_minus : (s : Bytes) → DigitFirst s → parse_int (45 ∷ s) ≡ negative (scan s 0)
unfolding parse_int
parse_int_minus s d = ap negative (parse_uint_digits s d)

negative_scanned :
    (n : ℕ) → n < 9223372036854775808 → negative (scanned (suc n)) ≡ parsed (negsuc n)
unfolding negative minus
negative_scanned n h = ground arith

format_int_minus : (n : ℕ) → format_int (negsuc n) ≡ 45 ∷ digits_loop 20 (suc n) []
unfolding format_int
format_int_minus n = refl

-- Every int64 is read back from the text that it is written as.
pub parse_int-format_int :
    (z : ℤ) → min_int64 ≤ℤ z → z ≤ℤ max_int64 → parse_int (format_int z) ≡ parsed z
unfolding format_int positive
parse_int-format_int (pos n) low high =
    parse_int_unsigned (digits_loop 20 n []) (digits-DigitFirst 19 n)
    ∙ ap positive (scan-digits n (omega arith))
    ∙ ground arith
parse_int-format_int (negsuc n) low high =
    ap parse_int (format_int_minus n)
    ∙ parse_int_minus (digits_loop 20 (suc n) []) (digits-DigitFirst 19 (suc n))
    ∙ ap negative (scan-digits (suc n) (omega arith))
    ∙ negative_scanned n (omega arith)
