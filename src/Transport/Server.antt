-- ===== src/Transport/Server.antt =====
-- internal/transport/server.go: the states of the server. Each section under the server's lock is one
-- step; the HTTP server and the upgrade of a request are what happens between them.
pub mod Shutdown
pub mod Returning
use game_server_go.Base.{
  ℕ, suc, ◌+◌, ◌-◌, Bool, true, false, Option, none, some, ◌==◌, if◌then◌else◌,
}

pub data ServerState : Type 0 where
  server_new server_running server_stopping server_stopped : ServerState

-- How far the one goroutine is that has entered the function under shutdownOnce, if one has: before
-- httpSrv.Shutdown, before hub.Shutdown, before connections.Wait, before the last section, or at its end.
pub data Phase : Type 0 where
  not_entered before_http before_hub before_wait before_end left_once : Phase

-- `connections` is the counter of the wait group, `http_srv` whether there is an HTTP server, and
-- `http_closed` whether it has been shut down.
pub record Server : Type 0 where
  pub state : ServerState
  pub http_srv : Bool
  pub http_closed : Bool
  pub hub_started : Bool
  pub hub_done : Bool
  pub connections : ℕ
  pub phase : Phase

-- http.ErrServerClosed and errServerAlreadyStarted
pub data StartError : Type 0 where
  server_closed already_started : StartError

-- NewServer
unfoldable pub new_server : Server
new_server = record {
  state = server_new;
  http_srv = false;
  http_closed = false;
  hub_started = false;
  hub_done = false;
  connections = 0;
  phase = not_entered;
}

start_in : ServerState → Server → Option StartError × Server
start_in server_new s =
    (none, record s { state = server_running; http_srv = true; hub_started = true })
start_in server_stopping s = (some server_closed, s)
start_in server_stopped s = (some server_closed, s)
start_in server_running s = (some already_started, s)

-- Start up to ListenAndServe, after which it calls Shutdown.
unfoldable pub start : Server → Option StartError × Server
unfolding start_in
start s = start_in s.state s

reserve_in : ServerState → Server → Bool × Server
reserve_in server_running s = (true, record s { connections = suc s.connections })
reserve_in server_new s = (false, s)
reserve_in server_stopping s = (false, s)
reserve_in server_stopped s = (false, s)

-- reserveConnection
unfoldable pub reserve_connection : Server → Bool × Server
unfolding reserve_in
reserve_connection s = reserve_in s.state s

-- connections.Done, which panics at zero.
unfoldable pub release_connection : Server → Server
release_connection s = record s { connections = s.connections - 1 }

-- What handleWebSocket has made of a request.
pub data Handled : Type 0 where
  unavailable upgrade_failed hub_closed serving : Handled

handle_reserved : Bool → Bool → Server → Handled × Server
unfolding release_connection
handle_reserved false registered s = (upgrade_failed, release_connection s)
handle_reserved true false s = (hub_closed, release_connection s)
handle_reserved true true s = (serving, s)

handle_if : Bool → Bool → Bool × Server → Handled × Server
unfolding handle_reserved
handle_if upgraded registered (false, s) = (unavailable, s)
handle_if upgraded registered (true, s) = handle_reserved upgraded registered s

-- handleWebSocket: whether the upgrade and the registration at the hub succeed is for the websocket
-- and for the hub to say. The reservation of a connection that is served is released when it ends.
unfoldable pub handle_web_socket : Bool → Bool → Server → Handled × Server
unfolding handle_if
handle_web_socket upgraded registered s = handle_if upgraded registered (reserve_connection s)

unfoldable begin_in : ServerState → Server → Server
begin_in server_stopped s = record s { phase = left_once }
begin_in server_new s = record s { phase = before_http; state = server_stopping }
begin_in server_running s = record s { phase = before_http; state = server_stopping }
begin_in server_stopping s = record s { phase = before_http; state = server_stopping }

begin_once : Phase → Server → Server
unfolding begin_in
begin_once not_entered s = begin_in s.state s
begin_once before_http s = s
begin_once before_hub s = s
begin_once before_wait s = s
begin_once before_end s = s
begin_once left_once s = s

-- The first section of Shutdown; a second call does nothing but wait for the first.
unfoldable pub begin_shutdown : Server → Server
unfolding begin_once
begin_shutdown s = begin_once s.phase s

-- httpSrv.Shutdown, where there is an HTTP server; it ends after five seconds at the latest.
unfoldable pub close_http : Server → Server
close_http s = record s { http_closed = s.http_srv; phase = before_hub }

-- hub.Shutdown, which starts the hub where it never was and waits for the end of its loop.
unfoldable pub shut_hub : Server → Server
shut_hub s = record s { hub_started = true; hub_done = true; phase = before_wait }

-- connections.Wait, which does not return while a connection is counted.
unfoldable pub wait_connections : Server → Option Server
wait_connections s = if s.connections == 0 then some (record s { phase = before_end }) else none

-- The last section of Shutdown.
unfoldable pub end_shutdown : Server → Server
end_shutdown s = record s { state = server_stopped; phase = left_once }
