-- ===== src/Runtime.antt =====
-- cmd/server/main.go: what the server registers and hooks in either mode. The
-- methods of the handlers are the parameter `fn`, by the identifier of their request.
pub mod Registered
pub mod Closing
pub mod Start
pub mod Development
pub mod Main
use game_server_go.Base.{
  ℕ, ◌*◌, Bool, true, false, List, [], ◌∷◌, ◌++◌, Option, none, some, Result, ok, err, ◌>>=◌,
  if◌then◌else◌,
}
use game_server_go.Base.Int.{ℤ}
use game_server_go.Base.Map.{Map}
use game_server_go.Base.Text.{Bytes, utf8}
use game_server_go.Messages.{MsgType}
use game_server_go.Hooks.{auth, rate_limit}
use game_server_go.Kernel.{
  Kernel, Handler, HandlerValue, HandlerEntry, typed, RegisterOption, Panic, new_kernel,
  register_route, auth_free_option,
}
use game_server_go.Pipeline.{BeforeHandler, Hooks, no_hooks, add_before}
use game_server_go.Protocol.Ids.{
  id_login_req, id_heartbeat_req, id_save_archive_req, id_load_archive_req, id_get_rank_req,
  id_submit_score_req, id_combat_result_req, id_get_enemy_configs_req, id_get_dungeon_config_req,
  id_get_style_configs_req, id_unlock_style_req, id_get_player_stats_req,
  id_update_player_stats_req, id_create_order_req, id_gm_command_req,
}
use game_server_go.Store.Repository.{SessionRepository, StoreError}

-- The arguments of one call of RegisterRoute.
pub record Registration (W : Type 0) : Type 0 where
  pub req_id : ℕ
  pub value : HandlerValue W
  pub options : List (RegisterOption W)

module _ {W : Type 0} where
  -- Calls of RegisterRoute that follow each other; the first panic ends them.
  unfoldable pub register_all : List (Registration W) → Kernel W → Result Panic (Kernel W)
  register_all [] k = ok k
  register_all (r ∷ rs) k = register_route k r.req_id r.value r.options >>= register_all rs

  abbrev on_route : MsgType → MsgType → ℕ → Handler W → Registration W
  on_route req resp id handler = record {
    req_id = id;
    value = typed req resp handler;
    options = [];
  }

  abbrev free_route : MsgType → MsgType → ℕ → Handler W → Registration W
  free_route req resp id handler = record {
    req_id = id;
    value = typed req resp handler;
    options = auth_free_option ∷ [];
  }

  module _ (fn : ℕ → Handler W) where
    -- The registration of the disabled payment handler, in either mode.
    unfoldable pub payment_route : Registration W
    payment_route =
        on_route MsgType.create_order_req MsgType.create_order_resp id_create_order_req
          (fn id_create_order_req)

    -- registerOnlineSessionHandlers
    unfoldable pub online_session_routes : List (Registration W)
    online_session_routes =
        free_route MsgType.login_req MsgType.login_resp id_login_req (fn id_login_req)
        ∷ free_route MsgType.heartbeat_req MsgType.heartbeat_resp id_heartbeat_req
            (fn id_heartbeat_req)
        ∷ on_route MsgType.save_archive_req MsgType.save_archive_resp id_save_archive_req
            (fn id_save_archive_req)
        ∷ on_route MsgType.load_archive_req MsgType.load_archive_resp id_load_archive_req
            (fn id_load_archive_req)
        ∷ []

    unfoldable pub development_routes : List (Registration W)
    unfolding online_session_routes
    development_routes =
        online_session_routes
        ++ (on_route MsgType.combat_result_req MsgType.combat_result_resp id_combat_result_req
              (fn id_combat_result_req)
            ∷ on_route MsgType.get_player_stats_req MsgType.get_player_stats_resp
                id_get_player_stats_req (fn id_get_player_stats_req)
            ∷ [])

    unfoldable pub production_routes : List (Registration W)
    unfolding online_session_routes
    production_routes =
        online_session_routes
        ++ (on_route MsgType.get_rank_req MsgType.get_rank_resp id_get_rank_req (fn id_get_rank_req)
            ∷ on_route MsgType.submit_score_req MsgType.submit_score_resp id_submit_score_req
                (fn id_submit_score_req)
            ∷ on_route MsgType.combat_result_req MsgType.combat_result_resp id_combat_result_req
                (fn id_combat_result_req)
            ∷ on_route MsgType.get_enemy_configs_req MsgType.get_enemy_configs_resp
                id_get_enemy_configs_req (fn id_get_enemy_configs_req)
            ∷ on_route MsgType.get_dungeon_config_req MsgType.get_dungeon_config_resp
                id_get_dungeon_config_req (fn id_get_dungeon_config_req)
            ∷ on_route MsgType.get_style_configs_req MsgType.get_style_configs_resp
                id_get_style_configs_req (fn id_get_style_configs_req)
            ∷ on_route MsgType.unlock_style_req MsgType.unlock_style_resp id_unlock_style_req
                (fn id_unlock_style_req)
            ∷ on_route MsgType.get_player_stats_req MsgType.get_player_stats_resp
                id_get_player_stats_req (fn id_get_player_stats_req)
            ∷ on_route MsgType.update_player_stats_req MsgType.update_player_stats_resp
                id_update_player_stats_req (fn id_update_player_stats_req)
            ∷ on_route MsgType.gm_command_req MsgType.gm_command_resp id_gm_command_req
                (fn id_gm_command_req)
            ∷ [])

  -- AddBefore on the chain that the kernel holds.
  unfoldable pub hook_before : BeforeHandler W → Kernel W → Kernel W
  hook_before h k = record k { hooks = add_before h k.hooks }

  module _ (uid_of : ℕ → W → ℤ) (sessions : SessionRepository W) where
    unfoldable pub development_hooks : Kernel W → Kernel W
    unfolding hook_before
    development_hooks k = hook_before (auth uid_of k.handlers sessions) k

    -- `check` is CheckRateLimit: a hundred requests in a second.
    unfoldable pub production_hooks :
        (Bytes → ℕ → ℕ → W → Result StoreError Bool × W) → Kernel W → Kernel W
    unfolding hook_before
    production_hooks check k =
        hook_before (rate_limit uid_of k.handlers check 100 1)
          (hook_before (auth uid_of k.handlers sessions) k)
