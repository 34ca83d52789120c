-- ===== src/Messages.antt =====
-- Every message that the wire carries, by its type. reflect.Type of a message is `MsgType`.
pub mod Account
pub mod Ranking
pub mod Combat
use game_server_go.Base.{
  ℕ, zero, suc, ◌≡◌, refl, ap, sym, ◌∙◌, ◌↔◌, Bool, true, List, [], ◌∷◌, ◌==◌, ==_iff,
}
use Account.{
  LoginReq, LoginResp, HeartbeatReq, HeartbeatResp, SaveArchiveReq, SaveArchiveResp, LoadArchiveReq,
  LoadArchiveResp, CreateOrderReq, CreateOrderResp, PayResultNotify, GmCommandReq, GmCommandResp,
  ErrorResp,
}
use Ranking.{GetRankReq, GetRankResp, SubmitScoreReq, SubmitScoreResp}
use Combat.{
  CombatResultReq, CombatResultResp, GetEnemyConfigsReq, GetEnemyConfigsResp, GetDungeonConfigReq,
  GetDungeonConfigResp, GetStyleConfigsReq, GetStyleConfigsResp, UnlockStyleReq, UnlockStyleResp,
  GetPlayerStatsReq, GetPlayerStatsResp, UpdatePlayerStatsReq, UpdatePlayerStatsResp,
}

pub data MsgType : Type 0 where
  login_req login_resp heartbeat_req heartbeat_resp save_archive_req save_archive_resp
        load_archive_req load_archive_resp get_rank_req get_rank_resp submit_score_req
        submit_score_resp combat_result_req combat_result_resp get_enemy_configs_req
        get_enemy_configs_resp get_dungeon_config_req get_dungeon_config_resp get_style_configs_req
        get_style_configs_resp unlock_style_req unlock_style_resp get_player_stats_req
        get_player_stats_resp update_player_stats_req update_player_stats_resp create_order_req
        create_order_resp pay_result_notify gm_command_req gm_command_resp error_resp :
      MsgType

pub data Message : Type 0 where
  login_req : LoginReq → Message
  login_resp : LoginResp → Message
  heartbeat_req : HeartbeatReq → Message
  heartbeat_resp : HeartbeatResp → Message
  save_archive_req : SaveArchiveReq → Message
  save_archive_resp : SaveArchiveResp → Message
  load_archive_req : LoadArchiveReq → Message
  load_archive_resp : LoadArchiveResp → Message
  get_rank_req : GetRankReq → Message
  get_rank_resp : GetRankResp → Message
  submit_score_req : SubmitScoreReq → Message
  submit_score_resp : SubmitScoreResp → Message
  combat_result_req : CombatResultReq → Message
  combat_result_resp : CombatResultResp → Message
  get_enemy_configs_req : GetEnemyConfigsReq → Message
  get_enemy_configs_resp : GetEnemyConfigsResp → Message
  get_dungeon_config_req : GetDungeonConfigReq → Message
  get_dungeon_config_resp : GetDungeonConfigResp → Message
  get_style_configs_req : GetStyleConfigsReq → Message
  get_style_configs_resp : GetStyleConfigsResp → Message
  unlock_style_req : UnlockStyleReq → Message
  unlock_style_resp : UnlockStyleResp → Message
  get_player_stats_req : GetPlayerStatsReq → Message
  get_player_stats_resp : GetPlayerStatsResp → Message
  update_player_stats_req : UpdatePlayerStatsReq → Message
  update_player_stats_resp : UpdatePlayerStatsResp → Message
  create_order_req : CreateOrderReq → Message
  create_order_resp : CreateOrderResp → Message
  pay_result_notify : PayResultNotify → Message
  gm_command_req : GmCommandReq → Message
  gm_command_resp : GmCommandResp → Message
  error_resp : ErrorResp → Message

-- reflect.TypeOf
unfoldable pub type_of : Message → MsgType
type_of (Message.login_req m) = MsgType.login_req
type_of (Message.login_resp m) = MsgType.login_resp
type_of (Message.heartbeat_req m) = MsgType.heartbeat_req
type_of (Message.heartbeat_resp m) = MsgType.heartbeat_resp
type_of (Message.save_archive_req m) = MsgType.save_archive_req
type_of (Message.save_archive_resp m) = MsgType.save_archive_resp
type_of (Message.load_archive_req m) = MsgType.load_archive_req
type_of (Message.load_archive_resp m) = MsgType.load_archive_resp
type_of (Message.get_rank_req m) = MsgType.get_rank_req
type_of (Message.get_rank_resp m) = MsgType.get_rank_resp
type_of (Message.submit_score_req m) = MsgType.submit_score_req
type_of (Message.submit_score_resp m) = MsgType.submit_score_resp
type_of (Message.combat_result_req m) = MsgType.combat_result_req
type_of (Message.combat_result_resp m) = MsgType.combat_result_resp
type_of (Message.get_enemy_configs_req m) = MsgType.get_enemy_configs_req
type_of (Message.get_enemy_configs_resp m) = MsgType.get_enemy_configs_resp
type_of (Message.get_dungeon_config_req m) = MsgType.get_dungeon_config_req
type_of (Message.get_dungeon_config_resp m) = MsgType.get_dungeon_config_resp
type_of (Message.get_style_configs_req m) = MsgType.get_style_configs_req
type_of (Message.get_style_configs_resp m) = MsgType.get_style_configs_resp
type_of (Message.unlock_style_req m) = MsgType.unlock_style_req
type_of (Message.unlock_style_resp m) = MsgType.unlock_style_resp
type_of (Message.get_player_stats_req m) = MsgType.get_player_stats_req
type_of (Message.get_player_stats_resp m) = MsgType.get_player_stats_resp
type_of (Message.update_player_stats_req m) = MsgType.update_player_stats_req
type_of (Message.update_player_stats_resp m) = MsgType.update_player_stats_resp
type_of (Message.create_order_req m) = MsgType.create_order_req
type_of (Message.create_order_resp m) = MsgType.create_order_resp
type_of (Message.pay_result_notify m) = MsgType.pay_result_notify
type_of (Message.gm_command_req m) = MsgType.gm_command_req
type_of (Message.gm_command_resp m) = MsgType.gm_command_resp
type_of (Message.error_resp m) = MsgType.error_resp

index : MsgType → ℕ
index MsgType.login_req = 0
index MsgType.login_resp = 1
index MsgType.heartbeat_req = 2
index MsgType.heartbeat_resp = 3
index MsgType.save_archive_req = 4
index MsgType.save_archive_resp = 5
index MsgType.load_archive_req = 6
index MsgType.load_archive_resp = 7
index MsgType.get_rank_req = 8
index MsgType.get_rank_resp = 9
index MsgType.submit_score_req = 10
index MsgType.submit_score_resp = 11
index MsgType.combat_result_req = 12
index MsgType.combat_result_resp = 13
index MsgType.get_enemy_configs_req = 14
index MsgType.get_enemy_configs_resp = 15
index MsgType.get_dungeon_config_req = 16
index MsgType.get_dungeon_config_resp = 17
index MsgType.get_style_configs_req = 18
index MsgType.get_style_configs_resp = 19
index MsgType.unlock_style_req = 20
index MsgType.unlock_style_resp = 21
index MsgType.get_player_stats_req = 22
index MsgType.get_player_stats_resp = 23
index MsgType.update_player_stats_req = 24
index MsgType.update_player_stats_resp = 25
index MsgType.create_order_req = 26
index MsgType.create_order_resp = 27
index MsgType.pay_result_notify = 28
index MsgType.gm_command_req = 29
index MsgType.gm_command_resp = 30
index MsgType.error_resp = 31

all_types : List MsgType
all_types =
    MsgType.login_req ∷ MsgType.login_resp ∷ MsgType.heartbeat_req ∷ MsgType.heartbeat_resp
    ∷ MsgType.save_archive_req ∷ MsgType.save_archive_resp ∷ MsgType.load_archive_req
    ∷ MsgType.load_archive_resp ∷ MsgType.get_rank_req ∷ MsgType.get_rank_resp
    ∷ MsgType.submit_score_req ∷ MsgType.submit_score_resp ∷ MsgType.combat_result_req
    ∷ MsgType.combat_result_resp ∷ MsgType.get_enemy_configs_req ∷ MsgType.get_enemy_configs_resp
    ∷ MsgType.get_dungeon_config_req ∷ MsgType.get_dungeon_config_resp
    ∷ MsgType.get_style_configs_req ∷ MsgType.get_style_configs_resp ∷ MsgType.unlock_style_req
    ∷ MsgType.unlock_style_resp ∷ MsgType.get_player_stats_req ∷ MsgType.get_player_stats_resp
    ∷ MsgType.update_player_stats_req ∷ MsgType.update_player_stats_resp ∷ MsgType.create_order_req
    ∷ MsgType.create_order_resp ∷ MsgType.pay_result_notify ∷ MsgType.gm_command_req
    ∷ MsgType.gm_command_resp ∷ MsgType.error_resp ∷ []

at_index : List MsgType → ℕ → MsgType
at_index [] n = MsgType.error_resp
at_index (t ∷ ts) zero = t
at_index (t ∷ ts) (suc n) = at_index ts n

at_index-index : (t : MsgType) → at_index all_types (index t) ≡ t
unfolding at_index all_types index
at_index-index MsgType.login_req = refl
at_index-index MsgType.login_resp = refl
at_index-index MsgType.heartbeat_req = refl
at_index-index MsgType.heartbeat_resp = refl
at_index-index MsgType.save_archive_req = refl
at_index-index MsgType.save_archive_resp = refl
at_index-index MsgType.load_archive_req = refl
at_index-index MsgType.load_archive_resp = refl
at_index-index MsgType.get_rank_req = refl
at_index-index MsgType.get_rank_resp = refl
at_index-index MsgType.submit_score_req = refl
at_index-index MsgType.submit_score_resp = refl
at_index-index MsgType.combat_result_req = refl
at_index-index MsgType.combat_result_resp = refl
at_index-index MsgType.get_enemy_configs_req = refl
at_index-index MsgType.get_enemy_configs_resp = refl
at_index-index MsgType.get_dungeon_config_req = refl
at_index-index MsgType.get_dungeon_config_resp = refl
at_index-index MsgType.get_style_configs_req = refl
at_index-index MsgType.get_style_configs_resp = refl
at_index-index MsgType.unlock_style_req = refl
at_index-index MsgType.unlock_style_resp = refl
at_index-index MsgType.get_player_stats_req = refl
at_index-index MsgType.get_player_stats_resp = refl
at_index-index MsgType.update_player_stats_req = refl
at_index-index MsgType.update_player_stats_resp = refl
at_index-index MsgType.create_order_req = refl
at_index-index MsgType.create_order_resp = refl
at_index-index MsgType.pay_result_notify = refl
at_index-index MsgType.gm_command_req = refl
at_index-index MsgType.gm_command_resp = refl
at_index-index MsgType.error_resp = refl

-- Equality of two reflect.Type values.
unfoldable pub same_type : MsgType → MsgType → Bool
unfolding index
same_type s t = index s == index t

pub same_type_iff : (s t : MsgType) → (same_type s t ≡ true) ↔ (s ≡ t)
unfolding same_type
same_type_iff s t = (
  λ h. sym (at_index-index s) ∙ ap (at_index all_types) ((==_iff _ _).0 h) ∙ at_index-index t,
  λ e. (==_iff _ _).1 (ap index e),
)
