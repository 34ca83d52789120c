-- ===== src/Base/Decimal.antt =====
-- strconv.FormatInt(z, 10).
use game_server_go.Base.{ℕ, zero, suc, ◌+◌, ◌/◌, ◌%◌, [], ◌∷◌, ltb, if◌then◌else◌}
use game_server_go.Base.Int.{ℤ, pos, negsuc}
use game_server_go.Base.Text.{Bytes}

-- Twenty rounds are enough for the digits of a 64-bit integer.
unfoldable pub digits_loop : ℕ → ℕ → Bytes → Bytes
digits_loop zero n out = out
digits_loop (suc fuel) n out =
    let rest = digits_loop fuel (n / 10) ((48 + n % 10) ∷ out) in
    if ltb n 10 then (48 + n) ∷ out else rest

unfoldable pub format_int : ℤ → Bytes
unfolding digits_loop
format_int (pos n) = digits_loop 20 n []
format_int (negsuc n) = b'-' ∷ digits_loop 20 (suc n) []
