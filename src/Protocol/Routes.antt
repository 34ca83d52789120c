-- ===== src/Protocol/Routes.antt =====
-- internal/protocol/routes.go
pub mod Canonical
use game_server_go.Base.{ℕ, List, [], ◌∷◌, Option, none, some, ◌==◌, if◌then◌else◌}
use game_server_go.Messages.{MsgType}
use game_server_go.Protocol.Ids.{
  id_combat_result_req, id_combat_result_resp, id_create_order_req, id_create_order_resp, id_error,
  id_gm_command_req, id_gm_command_resp, id_get_dungeon_config_req, id_get_dungeon_config_resp,
  id_get_enemy_configs_req, id_get_enemy_configs_resp, id_get_player_stats_req,
  id_get_player_stats_resp, id_get_rank_req, id_get_rank_resp, id_get_style_configs_req,
  id_get_style_configs_resp, id_heartbeat_req, id_heartbeat_resp, id_load_archive_req,
  id_load_archive_resp, id_login_req, id_login_resp, id_pay_result_notify, id_save_archive_req,
  id_save_archive_resp, id_submit_score_req, id_submit_score_resp, id_unlock_style_req,
  id_unlock_style_resp, id_update_player_stats_req, id_update_player_stats_resp,
}

pub record Route : Type 0 where
  pub request_id : ℕ
  pub response_id : ℕ
  pub request_prototype : MsgType
  pub response_prototype : MsgType

abbrev route : ℕ → ℕ → MsgType → MsgType → Route
route q p s t = record {
  request_id = q;
  response_id = p;
  request_prototype = s;
  response_prototype = t;
}

unfoldable pub canonical_routes : List Route
canonical_routes =
    route id_login_req id_login_resp MsgType.login_req MsgType.login_resp
    ∷ route id_heartbeat_req id_heartbeat_resp MsgType.heartbeat_req MsgType.heartbeat_resp
    ∷ route id_save_archive_req id_save_archive_resp MsgType.save_archive_req
        MsgType.save_archive_resp
    ∷ route id_load_archive_req id_load_archive_resp MsgType.load_archive_req
        MsgType.load_archive_resp
    ∷ route id_get_rank_req id_get_rank_resp MsgType.get_rank_req MsgType.get_rank_resp
    ∷ route id_submit_score_req id_submit_score_resp MsgType.submit_score_req
        MsgType.submit_score_resp
    ∷ route id_combat_result_req id_combat_result_resp MsgType.combat_result_req
        MsgType.combat_result_resp
    ∷ route id_get_enemy_configs_req id_get_enemy_configs_resp MsgType.get_enemy_configs_req
        MsgType.get_enemy_configs_resp
    ∷ route id_get_dungeon_config_req id_get_dungeon_config_resp MsgType.get_dungeon_config_req
        MsgType.get_dungeon_config_resp
    ∷ route id_get_style_configs_req id_get_style_configs_resp MsgType.get_style_configs_req
        MsgType.get_style_configs_resp
    ∷ route id_unlock_style_req id_unlock_style_resp MsgType.unlock_style_req
        MsgType.unlock_style_resp
    ∷ route id_get_player_stats_req id_get_player_stats_resp MsgType.get_player_stats_req
        MsgType.get_player_stats_resp
    ∷ route id_update_player_stats_req id_update_player_stats_resp MsgType.update_player_stats_req
        MsgType.update_player_stats_resp
    ∷ route id_create_order_req id_create_order_resp MsgType.create_order_req
        MsgType.create_order_resp
    ∷ route id_gm_command_req id_gm_command_resp MsgType.gm_command_req MsgType.gm_command_resp
    ∷ []

unfoldable pub all_message_ids : List ℕ
all_message_ids =
    id_login_req ∷ id_login_resp ∷ id_heartbeat_req ∷ id_heartbeat_resp ∷ id_save_archive_req
    ∷ id_save_archive_resp ∷ id_load_archive_req ∷ id_load_archive_resp ∷ id_get_rank_req
    ∷ id_get_rank_resp ∷ id_submit_score_req ∷ id_submit_score_resp ∷ id_combat_result_req
    ∷ id_combat_result_resp ∷ id_get_enemy_configs_req ∷ id_get_enemy_configs_resp
    ∷ id_get_dungeon_config_req ∷ id_get_dungeon_config_resp ∷ id_get_style_configs_req
    ∷ id_get_style_configs_resp ∷ id_unlock_style_req ∷ id_unlock_style_resp
    ∷ id_get_player_stats_req ∷ id_get_player_stats_resp ∷ id_update_player_stats_req
    ∷ id_update_player_stats_resp ∷ id_create_order_req ∷ id_create_order_resp
    ∷ id_pay_result_notify ∷ id_gm_command_req ∷ id_gm_command_resp ∷ id_error ∷ []

-- The loop of RouteFor: the first route with the request's identifier.
unfoldable pub find_route : List Route → ℕ → Option Route
find_route [] id = none
find_route (r ∷ rs) id = if r.request_id == id then some r else find_route rs id

unfoldable pub route_for : ℕ → Option Route
unfolding find_route canonical_routes
route_for = find_route canonical_routes
