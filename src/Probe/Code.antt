-- ===== src/Probe/Code.antt =====
-- The login code of cmd/devprobe/main.go: the development exchange takes it for an identity, and the
-- run that it names is valid.
use game_server_go.Base.{
  ℕ, ◌≡◌, ◌≢◌, inl, refl, ap, ◌∙◌, ◌<◌, ◌/◌, ◌%◌, [], ◌∷◌, ◌++◌, true, false, length, All, arith,
  ok,
}
use game_server_go.Base.Equality.{bytes_beq, bytes_eq}
use game_server_go.Base.Text.{
  Bytes, utf8, trim_space, is_blank, cut_prefix, front_space, back_space,
}
use game_server_go.Base.Text.Trim.{trim_space_lem}
use game_server_go.Protocol.Codec.RoundTrip.{IsByte}
use game_server_go.Login.Exchange.{development_exchange}
use game_server_go.Base.Float.{FloatOps, is_nan, is_inf, float_lt}
use game_server_go.Base.Int.{pos, ◌≤ℤ◌, ◌*ℤ◌, wrap64}
use game_server_go.Combat.Config.{default_combat_config}
use game_server_go.Combat.Validator.{max_kills}
use game_server_go.Combat.Validator.Accepted.{IsAccepted}
use game_server_go.Probe.{hex, hex_digit, new_probe_combat_result}

hex_digit_range : (d : ℕ) → d < 16 → (47 < hex_digit d) × (hex_digit d < 103)
unfolding hex_digit
hex_digit_range d h = ground arith

back_space_ascii :
    (a b c : ℕ) (rest : Bytes)
    → 47 < a
    → a < 103
    → 47 < b
    → b < 103
    → 47 < c
    → c < 103
    → back_space (a ∷ b ∷ c ∷ rest) ≡ 0
unfolding back_space
back_space_ascii a b c rest al ah bl bh cl ch = ground arith

-- What rand.Read fills: sixteen bytes.
pub record IsIdentity (identity : Bytes) : Type 0 where
  pub sixteen : length identity ≡ 16
  pub bytes : All IsByte identity

-- The hexadecimal text of an identity, and any text that ends so, has no white space at its end.
back_space_hex :
    (x y : ℕ) (rest : Bytes)
    → x < 256
    → y < 256
    → back_space (hex_digit (y % 16) ∷ hex_digit (y / 16) ∷ hex_digit (x % 16) ∷ rest) ≡ 0
back_space_hex x y rest p q =
    let (al, ah) = hex_digit_range (y % 16) (omega arith) in
    let (bl, bh) = hex_digit_range (y / 16) (omega arith) in
    let (cl, ch) = hex_digit_range (x % 16) (omega arith) in
    back_space_ascii _ _ _ rest al ah bl bh cl ch

-- The code without "dev:".
identity_text : Bytes → Bytes
identity_text identity = utf8 "process-probe-" ++ hex identity

unfoldable pub login_code : Bytes → Bytes
login_code identity = utf8 "dev:process-probe-" ++ hex identity

identity_text_trimmed :
    (identity : Bytes)
    → IsIdentity identity
    → trim_space (identity_text identity) ≡ identity_text identity
unfolding identity_text utf8 hex front_space
identity_text_trimmed
      (b0 ∷ b1 ∷ b2 ∷ b3 ∷ b4 ∷ b5 ∷ b6 ∷ b7 ∷ b8 ∷ b9 ∷ b10 ∷ b11 ∷ b12 ∷ b13 ∷ b14 ∷ b15 ∷ []) h =
    trim_space_lem _ refl
      (back_space_hex b14 b15 _ (omega (arith, h.bytes)) (omega (arith, h.bytes)))
identity_text_trimmed _ h = absurd (omega (arith, h.sixteen))

identity_text-is_blank :
    (identity : Bytes) → IsIdentity identity → is_blank (identity_text identity) ≡ false
unfolding is_blank bytes_beq identity_text utf8
identity_text-is_blank identity h =
    ap (λ t. bytes_beq t []) (identity_text_trimmed identity h) ∙ refl

-- The development exchange, where it is enabled, takes the code itself for the open identifier.
pub development_exchange_code :
    (identity : Bytes)
    → IsIdentity identity
    → development_exchange true (login_code identity)
      ≡ ok (record { open_id = login_code identity })
unfolding development_exchange login_code identity_text utf8 cut_prefix
development_exchange_code identity h = rw (identity_text-is_blank identity h) refl

run_name : Bytes → Bytes
run_name identity = utf8 "probe-" ++ login_code identity

run_name_trimmed :
    (identity : Bytes) → IsIdentity identity → trim_space (run_name identity) ≡ run_name identity
unfolding run_name login_code utf8 hex front_space
run_name_trimmed
      (b0 ∷ b1 ∷ b2 ∷ b3 ∷ b4 ∷ b5 ∷ b6 ∷ b7 ∷ b8 ∷ b9 ∷ b10 ∷ b11 ∷ b12 ∷ b13 ∷ b14 ∷ b15 ∷ []) h =
    trim_space_lem _ refl
      (back_space_hex b14 b15 _ (omega (arith, h.bytes)) (omega (arith, h.bytes)))
run_name_trimmed _ h = absurd (omega (arith, h.sixteen))

length-run_name : (identity : Bytes) → IsIdentity identity → length (run_name identity) ≡ 56
unfolding run_name login_code utf8 hex
length-run_name
      (b0 ∷ b1 ∷ b2 ∷ b3 ∷ b4 ∷ b5 ∷ b6 ∷ b7 ∷ b8 ∷ b9 ∷ b10 ∷ b11 ∷ b12 ∷ b13 ∷ b14 ∷ b15 ∷ []) h =
    refl
length-run_name _ h = absurd (omega (arith, h.sixteen))

run_name_nonempty : (identity : Bytes) → run_name identity ≢ []
unfolding run_name utf8
run_name_nonempty identity h = cc

score_fits : pos 100 ≤ℤ wrap64 (default_combat_config.max_score_per_level *ℤ pos 2)
unfolding wrap64 ◌*ℤ◌
score_fits = omega arith

is_number : (is_nan 0x3ff0_0000_0000_0000 ≡ false) × (is_inf 0x3ff0_0000_0000_0000 ≡ false)
unfolding is_nan is_inf
is_number = (refl, refl)

survives :
    (float_lt 0x3ff0_0000_0000_0000 0 ≡ false)
    × (float_lt 0x40bc_2000_0000_0000 0x3ff0_0000_0000_0000 ≡ false)
unfolding is_nan float_lt
survives = (refl, refl)

-- The run is valid, if the server allows at least two kills in a dungeon of level 2.
pub new_probe_combat_result-IsAccepted :
    (ops : FloatOps) (identity : Bytes)
    → IsIdentity identity
    → pos 2 ≤ℤ max_kills ops default_combat_config (pos 2)
    → IsAccepted ops default_combat_config (new_probe_combat_result (login_code identity))
unfolding new_probe_combat_result run_name max_kills
new_probe_combat_result-IsAccepted ops identity h kills = record {
  run_id_trimmed = run_name_trimmed identity h;
  run_id_length = (run_name_nonempty identity, omega (arith, length-run_name identity h));
  outcome_known = inl refl;
  player_level_range = (omega arith, omega arith);
  dungeon_level_range = (omega arith, omega arith);
  score_range = (omega arith, score_fits);
  kills_range = (omega arith, kills);
  survival_time_number = is_number;
  survival_time_range = survives;
  style_range = (omega arith, omega arith);
}
