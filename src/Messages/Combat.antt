-- ===== src/Messages/Combat.antt =====
-- The message types of internal/protocolpb/game.pb.go for combat, and the battle outcomes.
use game_server_go.Base.{Bool, List, Option}
use game_server_go.Base.Float.{Float32, Float64}
use game_server_go.Base.Int.{ℤ, pos}
use game_server_go.Base.Text.{Bytes}
use game_server_go.Messages.Account.{PlayerArchive}

-- BattleOutcome is an open enum: a received value may be any int32.
abbrev pub outcome_victory : ℤ
outcome_victory = pos 1

abbrev pub outcome_defeat : ℤ
outcome_defeat = pos 2

pub record CombatResultReq : Type 0 where
  pub run_id : Bytes
  pub dungeon_level : ℤ
  pub score : ℤ
  pub kills : ℤ
  pub survival_time : Float64
  pub style_id : ℤ
  pub outcome : ℤ
  pub player_level : ℤ

pub record CombatResultResp : Type 0 where
  pub success : Bool
  pub duplicate : Bool
  pub reward_gold : ℤ
  pub reward_exp : ℤ
  pub best_score : ℤ
  pub archive : Option PlayerArchive
  pub run_id : Bytes

pub record EnemyConfigItem : Type 0 where
  pub id : ℤ
  pub name : Bytes
  pub hp : ℤ
  pub damage : ℤ
  pub speed : Float32
  pub attack_range : Float32
  pub enemy_type : Bytes

abbrev pub GetEnemyConfigsReq : Type 0
GetEnemyConfigsReq = record {}

pub record GetEnemyConfigsResp : Type 0 where
  pub configs : List EnemyConfigItem

pub record DungeonConfigItem : Type 0 where
  pub level : ℤ
  pub room_count : ℤ
  pub enemy_density : Float32
  pub boss_id : ℤ

pub record GetDungeonConfigReq : Type 0 where
  pub level : ℤ

pub record GetDungeonConfigResp : Type 0 where
  pub level : ℤ
  pub room_count : ℤ
  pub enemy_density : Float32
  pub boss_id : ℤ
  pub enemy_configs : List EnemyConfigItem

pub record StyleConfigItem : Type 0 where
  pub style_id : ℤ
  pub style_name : Bytes
  pub damage_mult : Float32
  pub speed_mult : Float32
  pub parry_mult : Float32
  pub dash_speed_mult : Float32
  pub dash_cost_mult : Float32
  pub special_resource_max : ℤ
  pub special_resource_name : Bytes
  pub description : Bytes

abbrev pub GetStyleConfigsReq : Type 0
GetStyleConfigsReq = record {}

pub record GetStyleConfigsResp : Type 0 where
  pub styles : List StyleConfigItem

pub record UnlockStyleReq : Type 0 where
  pub style_id : ℤ

pub record UnlockStyleResp : Type 0 where
  pub success : Bool
  pub gold_cost : ℤ

abbrev pub GetPlayerStatsReq : Type 0
GetPlayerStatsReq = record {}

pub record GetPlayerStatsResp : Type 0 where
  pub level : ℤ
  pub exp : ℤ
  pub gold : ℤ
  pub max_hp : ℤ
  pub max_stamina : ℤ
  pub attack_power : ℤ
  pub unlocked_styles : List ℤ

pub record UpdatePlayerStatsReq : Type 0 where
  pub level : ℤ
  pub exp : ℤ
  pub gold : ℤ
  pub max_hp : ℤ
  pub max_stamina : ℤ
  pub attack_power : ℤ
  pub unlocked_styles : List ℤ

pub record UpdatePlayerStatsResp : Type 0 where
  pub success : Bool
