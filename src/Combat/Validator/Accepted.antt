-- ===== src/Combat/Validator/Accepted.antt =====
-- Which runs validateCombatResult of internal/combat/validator.go accepts.
use game_server_go.Base.{
  ◌≡◌, ◌≢◌, [], ◌≤◌, ◌↔◌, ◌⊎◌, Bool, false, not, ◌||◌, none, some, length, arith, if◌then◌else◌,
}
use game_server_go.Base.Equality.{bytes_eq, bytes_beq_iff}
use game_server_go.Base.Int.{ℤ, pos, ◌≤ℤ◌, ◌*ℤ◌, wrap64, ltb_ℤ, leb_ℤ, eqb_ℤ, eqb_ℤ_iff}
use game_server_go.Base.Float.{Float64, FloatOps, is_nan, is_inf, float_lt}
use game_server_go.Base.Text.{Bytes, trim_space}
use game_server_go.Messages.Combat.{CombatResultReq, outcome_victory, outcome_defeat}
use game_server_go.Combat.Config.{CombatConfig, get_dungeon_config}
use game_server_go.Combat.Validator.{
  Fault, validate_combat_result, check_result, valid_run_id, max_kills, max_score, is_survival_time,
}

pub record IsAccepted (ops : FloatOps) (cfg : CombatConfig) (req : CombatResultReq) : Type 0 where
  pub run_id_trimmed : trim_space req.run_id ≡ req.run_id
  pub run_id_length : (req.run_id ≢ []) × (length req.run_id ≤ 128)
  pub outcome_known : (req.outcome ≡ outcome_victory) ⊎ (req.outcome ≡ outcome_defeat)
  pub player_level_range : (pos 1 ≤ℤ req.player_level) × (req.player_level ≤ℤ pos 100)
  pub dungeon_level_range : (pos 1 ≤ℤ req.dungeon_level) × (req.dungeon_level ≤ℤ pos 100)
  pub score_range :
      (pos 0 ≤ℤ req.score) × (req.score ≤ℤ wrap64 (cfg.max_score_per_level *ℤ req.dungeon_level))
  pub kills_range :
      let dungeon = get_dungeon_config ops req.dungeon_level in
      (pos 0 ≤ℤ req.kills)
      × (req.kills
          ≤ℤ ops.to_int32 (
              ops.mul
                (ops.mul (ops.of_int dungeon.room_count) (ops.of_float32 dungeon.enemy_density))
                cfg.max_kills_multiplier))
  pub survival_time_number : (is_nan req.survival_time ≡ false) × (is_inf req.survival_time ≡ false)
  pub survival_time_range :
      (float_lt req.survival_time 0 ≡ false)
      × (float_lt 0x40bc_2000_0000_0000 req.survival_time ≡ false)
  pub style_range : (pos 1 ≤ℤ req.style_id) × (req.style_id ≤ℤ pos 5)

-- A range check of the source passes exactly in the range.
in_range : (low z high : ℤ) → ((ltb_ℤ z low || ltb_ℤ high z) ≡ false) ↔ ((low ≤ℤ z) × (z ≤ℤ high))
unfolding ltb_ℤ
in_range low z high = (λ h. ground arith, λ h. ground arith)

level_in_range :
    (z high : ℤ) → ((leb_ℤ z (pos 0) || ltb_ℤ high z) ≡ false) ↔ ((pos 1 ≤ℤ z) × (z ≤ℤ high))
unfolding ltb_ℤ leb_ℤ
level_in_range z high = (λ h. ground arith, λ h. ground arith)

known_outcome :
    (z : ℤ)
    → (not (eqb_ℤ z outcome_victory || eqb_ℤ z outcome_defeat) ≡ false)
      ↔ ((z ≡ outcome_victory) ⊎ (z ≡ outcome_defeat))
known_outcome z = (
  λ h. ground (arith, eqb_ℤ_iff z outcome_victory, eqb_ℤ_iff z outcome_defeat),
  λ h. ground (arith, eqb_ℤ_iff z outcome_victory, eqb_ℤ_iff z outcome_defeat),
)

valid_run_id_iff :
    (run_id : Bytes)
    → (not (valid_run_id run_id) ≡ false)
      ↔ ((trim_space run_id ≡ run_id) × (run_id ≢ []) × (length run_id ≤ 128))
unfolding valid_run_id
valid_run_id_iff run_id = (
  λ h. (
    ground (arith, bytes_beq_iff (trim_space run_id) run_id),
    λ e. ground (arith, bytes_beq_iff run_id []),
    ground arith,
  ),
  λ (trimmed, filled, short).
      ground (arith, bytes_beq_iff (trim_space run_id) run_id, bytes_beq_iff run_id []),
)

survival_time_iff :
    (t : Float64)
    → (not (is_survival_time t) ≡ false) ↔ (
        ((is_nan t ≡ false) × (is_inf t ≡ false))
        × ((float_lt t 0 ≡ false) × (float_lt 0x40bc_2000_0000_0000 t ≡ false)))
unfolding is_survival_time
survival_time_iff t = (λ h. ground arith, λ h. ground arith)

-- Eight checks in a row find no fault exactly if none of them does.
no_fault :
    (b1 b2 b3 b4 b5 b6 b7 b8 : Bool) (f1 f2 f3 f4 f5 f6 f7 f8 : Fault)
    → ((if b1
          then some f1
          else if b2
          then some f2
          else if b3
          then some f3
          else if b4
          then some f4
          else if b5
          then some f5
          else if b6
          then some f6
          else if b7
          then some f7
          else if b8
          then some f8
          else none)
        ≡ none)
      ↔ ((b1 ≡ false)
          × (b2 ≡ false)
          × (b3 ≡ false)
          × (b4 ≡ false)
          × (b5 ≡ false)
          × (b6 ≡ false)
          × (b7 ≡ false)
          × (b8 ≡ false))
no_fault b1 b2 b3 b4 b5 b6 b7 b8 f1 f2 f3 f4 f5 f6 f7 f8 = (λ h. ground arith, λ h. ground arith)

-- A run is accepted exactly if its identifier is trimmed, not empty and at most 128 bytes long, its
-- outcome is a victory or a defeat, its levels and style are in range, its score is at most the cap for a
-- level times the dungeon's level, its kills are at most rooms times density times the multiplier, and its
-- time is a number from 0 to 7200.
pub validate_combat_result_iff :
    (ops : FloatOps) (cfg : CombatConfig) (req : CombatResultReq)
    → (validate_combat_result ops (some req) (some cfg) ≡ none) ↔ IsAccepted ops cfg req
unfolding validate_combat_result check_result max_score max_kills
validate_combat_result_iff ops cfg req = (
  λ h.
      let (c1, c2, c3, c4, c5, c6, c7, c8) = (no_fault _ _ _ _ _ _ _ _ _ _ _ _ _ _ _ _).0 h in
      let (trimmed, filled, short) = (valid_run_id_iff req.run_id).0 c1 in
      record {
        run_id_trimmed = trimmed;
        run_id_length = (filled, short);
        outcome_known = (known_outcome req.outcome).0 c2;
        player_level_range = (in_range _ _ _).0 c3;
        dungeon_level_range = (level_in_range _ _).0 c4;
        score_range = (in_range _ _ _).0 c5;
        kills_range = (in_range _ _ _).0 c6;
        survival_time_number = ((survival_time_iff req.survival_time).0 c7).0;
        survival_time_range = ((survival_time_iff req.survival_time).0 c7).1;
        style_range = (in_range _ _ _).0 c8;
      },
  λ a. (no_fault _ _ _ _ _ _ _ _ _ _ _ _ _ _ _ _).1 (
    (valid_run_id_iff req.run_id).1 (a.run_id_trimmed, a.run_id_length.0, a.run_id_length.1),
    (known_outcome req.outcome).1 a.outcome_known,
    (in_range _ _ _).1 a.player_level_range,
    (level_in_range _ _).1 a.dungeon_level_range,
    (in_range _ _ _).1 a.score_range,
    (in_range _ _ _).1 a.kills_range,
    (survival_time_iff req.survival_time).1 (a.survival_time_number, a.survival_time_range),
    (in_range _ _ _).1 a.style_range,
  ),
)
