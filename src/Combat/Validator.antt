-- ===== src/Combat/Validator.antt =====
-- internal/combat/validator.go, and validRunID of service.go. What the source returns as an error
-- with a text is a value of `Fault`, one for each text.
pub mod Accepted
use game_server_go.Base.{
  ℕ, [], Bool, true, false, not, ◌||◌, ◌&&◌, Option, none, some, length, leb, if◌then◌else◌,
}
use game_server_go.Base.Equality.{◌==◌, bytes_eq}
use game_server_go.Base.Int.{ℤ, pos, ◌*ℤ◌, ltb_ℤ, leb_ℤ, eqb_ℤ, wrap64}
use game_server_go.Base.Float.{Float64, FloatOps, float_lt, is_nan, is_inf}
use game_server_go.Base.Text.{Bytes, trim_space}
use game_server_go.Messages.Combat.{CombatResultReq, outcome_victory, outcome_defeat}
use game_server_go.Combat.Config.{CombatConfig, get_dungeon_config}

abbrev pub max_combat_run_id_bytes : ℕ
max_combat_run_id_bytes = 128

abbrev pub max_player_level : ℤ
max_player_level = pos 100

abbrev pub max_dungeon_level : ℤ
max_dungeon_level = pos 100

pub data Fault : Type 0 where
  invalid_settlement invalid_run_id invalid_outcome : Fault
  invalid_player_level : ℤ → Fault
  invalid_dungeon_level : Fault
  score_abnormal : ℤ → ℤ → Fault
  kills_abnormal : ℤ → ℤ → Fault
  survival_time_abnormal : Float64 → Fault
  invalid_style : ℤ → Fault

-- validRunID
unfoldable pub valid_run_id : Bytes → Bool
valid_run_id run_id =
    trim_space run_id == run_id && not (run_id == []) && leb (length run_id) max_combat_run_id_bytes

-- int32(float64(RoomCount) * float64(EnemyDensity) * MaxKillsMultiplier)
unfoldable pub max_kills : FloatOps → CombatConfig → ℤ → ℤ
max_kills ops cfg level =
    let dungeon = get_dungeon_config ops level in
    ops.to_int32 (
      ops.mul (ops.mul (ops.of_int dungeon.room_count) (ops.of_float32 dungeon.enemy_density))
        cfg.max_kills_multiplier)

unfoldable pub max_score : CombatConfig → ℤ → ℤ
max_score cfg level = wrap64 (cfg.max_score_per_level *ℤ level)

-- 7200
abbrev pub longest_survival : Float64
longest_survival = 0x40bc_2000_0000_0000

unfoldable pub is_survival_time : Float64 → Bool
is_survival_time t = not (is_nan t || is_inf t || float_lt t 0 || float_lt longest_survival t)

-- The check of the values, in the order of the source.
check_result : FloatOps → CombatResultReq → CombatConfig → Option Fault
unfolding valid_run_id max_kills max_score is_survival_time
check_result ops req cfg =
    if not (valid_run_id req.run_id)
    then some invalid_run_id
    else if not (eqb_ℤ req.outcome outcome_victory || eqb_ℤ req.outcome outcome_defeat)
    then some invalid_outcome
    else if ltb_ℤ req.player_level (pos 1) || ltb_ℤ max_player_level req.player_level
    then some (invalid_player_level req.player_level)
    else if leb_ℤ req.dungeon_level (pos 0) || ltb_ℤ max_dungeon_level req.dungeon_level
    then some invalid_dungeon_level
    else if ltb_ℤ req.score (pos 0) || ltb_ℤ (max_score cfg req.dungeon_level) req.score
    then some (score_abnormal req.score (max_score cfg req.dungeon_level))
    else if ltb_ℤ req.kills (pos 0) || ltb_ℤ (max_kills ops cfg req.dungeon_level) req.kills
    then some (kills_abnormal req.kills (max_kills ops cfg req.dungeon_level))
    else if not (is_survival_time req.survival_time)
    then some (survival_time_abnormal req.survival_time)
    else if ltb_ℤ req.style_id (pos 1) || ltb_ℤ (pos 5) req.style_id
    then some (invalid_style req.style_id)
    else none

-- validateCombatResult
unfoldable pub validate_combat_result :
    FloatOps → Option CombatResultReq → Option CombatConfig → Option Fault
unfolding check_result
validate_combat_result ops none cfg = some invalid_settlement
validate_combat_result ops (some req) none = some invalid_settlement
validate_combat_result ops (some req) (some cfg) = check_result ops req cfg
