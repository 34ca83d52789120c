-- ===== src/Examples/Running.antt =====
-- The server that starts and stops, and the handlers it starts with.
use game_server_go.Base.{
  ℕ, List, [], ◌∷◌, ◌≡◌, refl, true, false, ◌||◌, none, some, ok, err, ◌==◌, arith,
}
use game_server_go.Base.Int.{pos}
use game_server_go.Base.Map.{get, put, delete}
use game_server_go.Base.Text.{utf8}
use game_server_go.Messages.{same_type}
use game_server_go.Store.Repository.{SessionRepository}
use game_server_go.Runtime.Start.{Setting, new_runtime, close_quietly}
use game_server_go.Runtime.Start.Outcomes.{IsStarted, new_runtime-IsStarted}
use game_server_go.Transport.Server.{
  Server, new_server, start, before_end, reserve_connection, release_connection, begin_shutdown,
  close_http, shut_hub, wait_connections, end_shutdown,
}
use game_server_go.Transport.Server.Shutdown.{
  starts, reserves, releases, begins, closes_http, shuts_hub, waits, finishes, Reaches, here, after,
  IsSound, Reaches-IsSound,
}
use game_server_go.Transport.Server.Returning.{shut_down, Returns, shut_down-Returns}
use game_server_go.Kernel.{
  Handler, register, register_route, apply_options, Kernel, new_kernel, has_handler, is_auth_free,
}
use game_server_go.Protocol.Ids.{id_login_req, id_heartbeat_req}
use game_server_go.Protocol.Routes.{route_for}
use game_server_go.Pipeline.{no_hooks}
use game_server_go.Runtime.{payment_route, register_all, production_routes}
use game_server_go.Runtime.Registered.{routed, production_routes_lem}
use game_server_go.Examples.Server.{World, pong}

-- A server that has served one connection and has been shut down.
abbrev stopping_server : Server
stopping_server =
    shut_hub
      (release_connection (close_http (begin_shutdown (reserve_connection (start new_server).1).1)))

abbrev stopped_server : Server
stopped_server = end_shutdown (record stopping_server { phase = before_end })

stopped_server-Reaches : Reaches new_server stopped_server
unfolding new_server start reserve_connection begin_shutdown release_connection close_http shut_hub
    wait_connections end_shutdown
stopped_server-Reaches =
    let served : Reaches new_server (reserve_connection (start new_server).1).1 =
      after (after here starts) reserves in
    let closed : Reaches new_server stopping_server =
      after (after (after (after served begins) (closes_http refl)) (releases (omega arith)))
        (shuts_hub refl) in
    after (after closed (waits refl refl)) (finishes refl)

Reaches-IsSound_example : IsSound stopped_server
Reaches-IsSound_example = Reaches-IsSound stopped_server-Reaches

busy_server-Reaches : Reaches new_server (reserve_connection (start new_server).1).1
busy_server-Reaches = after (after here starts) reserves

shut_down-Returns_example :
    Returns 1 1 true (shut_down 1 (reserve_connection (start new_server).1).1)
unfolding new_server start reserve_connection
shut_down-Returns_example = shut_down-Returns busy_server-Reaches refl 1

production_routes_lem_example :
    (k : Kernel World) × (register_all
        (payment_route (λ id. pong) ∷ production_routes (λ id. pong))
        (new_kernel (some no_hooks))
      ≡ ok k)
    × (has_handler k 1003 ≡ routed (route_for 1003))
    × (is_auth_free k.handlers 1003 ≡ ((1003 == id_login_req) || (1003 == id_heartbeat_req)))
production_routes_lem_example = production_routes_lem (λ id. pong) 1003

-- A production whose Redis does not open: its world is the log of what was closed.
abbrev no_redis_setting : Setting (List ℕ)
no_redis_setting = record {
  payment = false;
  in_development = false;
  open_mysql = λ w. (ok (some (λ v. (none, 1 ∷ v))), w);
  open_redis = λ w. (err (utf8 "refused"), w);
}

abbrev no_sessions : SessionRepository (List ℕ)
no_sessions = record {
  set_session = λ uid d w. (none, w);
  get_session = λ uid w. (ok none, w);
  del_session = λ uid w. (none, w);
}

abbrev silent : ℕ → Handler (List ℕ)
silent id ctx m w = (record { response = none; error = none }, w)

new_runtime-IsStarted_example :
    IsStarted silent
      (λ s w. pos 7)
      no_sessions
      (λ k n t w. (ok true, w))
      no_redis_setting
      []
      (new_runtime silent (λ s w. pos 7) no_sessions (λ k n t w. (ok true, w)) no_redis_setting [])
new_runtime-IsStarted_example =
    new_runtime-IsStarted silent (λ s w. pos 7) no_sessions (λ k n t w. (ok true, w))
      no_redis_setting []

mysql_closed :
    (new_runtime silent (λ s w. pos 7) no_sessions (λ k n t w. (ok true, w)) no_redis_setting []).1
    ≡ 1 ∷ []
unfolding new_runtime register_all payment_route new_kernel register_route register apply_options
    get put delete route_for same_type close_quietly
mysql_closed = refl
