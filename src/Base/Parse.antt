-- ===== src/Base/Parse.antt =====
-- strconv.ParseInt(s, 10, 64).
pub mod RoundTrip
use game_server_go.Base.{
  ℕ, suc, zero, ◌+◌, ◌*◌, ◌-◌, ◌^◌, Bool, true, false, [], ◌∷◌, ltb, ◌==◌, ◌||◌, if◌then◌else◌,
}
use game_server_go.Base.Int.{ℤ, pos, negsuc, max_int64, min_int64}
use game_server_go.Base.Text.{Bytes}

-- The value with a nil error, or the value beside ErrSyntax or ErrRange.
pub data Parsed : Type 0 where
  parsed : ℤ → Parsed
  syntax_error : Parsed
  out_of_range : ℤ → Parsed

pub data Scanned : Type 0 where
  scanned : ℕ → Scanned
  bad_digit too_large : Scanned

abbrev pub max_uint64 : ℕ
max_uint64 = 18446744073709551615

-- The loop of ParseUint: the first digit that is none, or that leaves uint64, ends it.
scan : Bytes → ℕ → Scanned
scan [] n = scanned n
scan (c ∷ s) n =
    let rest = scan s (n * 10 + (c - 48)) in
    if ltb c 48 || ltb 57 c
    then bad_digit
    else if ltb max_uint64 (n * 10 + (c - 48))
    then too_large
    else rest

parse_uint : Bytes → Scanned
unfolding scan
parse_uint [] = bad_digit
parse_uint (c ∷ s) = scan (c ∷ s) 0

-- The magnitude under its sign.
positive : Scanned → Parsed
positive (scanned n) = if ltb n 9223372036854775808 then parsed (pos n) else out_of_range max_int64
positive bad_digit = syntax_error
positive too_large = out_of_range max_int64

minus : ℕ → ℤ
minus zero = pos 0
minus (suc n) = negsuc n

negative : Scanned → Parsed
unfolding minus
negative (scanned n) =
    if ltb 9223372036854775808 n then out_of_range min_int64 else parsed (minus n)
negative bad_digit = syntax_error
negative too_large = out_of_range min_int64

unfoldable pub parse_int : Bytes → Parsed
unfolding parse_uint positive negative
parse_int [] = syntax_error
parse_int (c ∷ s) =
    if c == 43
    then positive (parse_uint s)
    else if c == 45
    then negative (parse_uint s)
    else positive (parse_uint (c ∷ s))

-- The value that the call returns, whatever its error.
unfoldable pub parsed_value : Parsed → ℤ
parsed_value (parsed z) = z
parsed_value syntax_error = pos 0
parsed_value (out_of_range z) = z
