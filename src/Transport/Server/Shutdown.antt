-- ===== src/Transport/Server/Shutdown.antt =====
-- The steps of the server of internal/transport/server.go in any order, and Shutdown as a whole.
use game_server_go.Base.{
  suc, ◌<◌, ◌≡◌, refl, ◌⊎◌, inl, inr, true, false, Bool-cases, none, some, arith, ◌==◌, ==_iff,
}
use game_server_go.Transport.Server.{
  ServerState, server_new, server_running, server_stopping, server_stopped, Phase, not_entered,
  before_http, before_hub, before_wait, before_end, left_once, Server, new_server, start, start_in,
  reserve_connection, reserve_in, release_connection, begin_shutdown, begin_once, begin_in,
  close_http, shut_hub, wait_connections, end_shutdown,
}

-- Start, reserveConnection and Shutdown are called by any goroutine at any time, and a connection that is
-- counted ends. The steps of the one goroutine inside shutdownOnce are taken where it is.
pub data Step (s : Server) : Server → Type 0 where
  starts : Step s (start s).1
  reserves : Step s (reserve_connection s).1
  releases : 0 < s.connections → Step s (release_connection s)
  begins : Step s (begin_shutdown s)
  closes_http : s.phase ≡ before_http → Step s (close_http s)
  shuts_hub : s.phase ≡ before_hub → Step s (shut_hub s)
  waits : {t : Server} → s.phase ≡ before_wait → wait_connections s ≡ some t → Step s t
  finishes : s.phase ≡ before_end → Step s (end_shutdown s)

pub data Reaches : Server → Server → Type 0 where
  here : {s : Server} → Reaches s s
  after : {s t u : Server} → Reaches s t → Step t u → Reaches s u

-- What has happened before connections.Wait returns.
abbrev pub IsClosed : Server → Type 0
IsClosed s = (s.http_closed ≡ s.http_srv) × (s.hub_done ≡ true)

-- The states that a server can be in, by where Shutdown is.
pub data IsSound (s : Server) : Type 0 where
  is_new :
      s.state ≡ server_new
      → s.phase ≡ not_entered
      → s.connections ≡ 0
      → s.http_srv ≡ false
      → IsSound s
  is_running :
      s.state ≡ server_running
      → s.phase ≡ not_entered
      → s.http_srv ≡ true
      → s.hub_started ≡ true
      → IsSound s
  is_stopping : s.state ≡ server_stopping → s.phase ≡ before_http → IsSound s
  http_is_down :
      s.state ≡ server_stopping → s.phase ≡ before_hub → s.http_closed ≡ s.http_srv → IsSound s
  is_waiting : s.state ≡ server_stopping → s.phase ≡ before_wait → IsClosed s → IsSound s
  has_waited :
      s.state ≡ server_stopping → s.phase ≡ before_end → IsClosed s → s.connections ≡ 0 → IsSound s
  is_stopped :
      s.state ≡ server_stopped → s.phase ≡ left_once → IsClosed s → s.connections ≡ 0 → IsSound s

new_phase : (s : Server) → s.state ≡ server_new → IsSound s → s.phase ≡ not_entered
new_phase s e (is_new _ p c h) = p
new_phase s e (is_running f p h u) = p
new_phase s e (is_stopping f p) = absurd cc
new_phase s e (http_is_down f p h) = absurd cc
new_phase s e (is_waiting f p c) = absurd cc
new_phase s e (has_waited f p c n) = absurd cc
new_phase s e (is_stopped f p c n) = absurd cc

start-IsSound : (k : ServerState) (s : Server) → s.state ≡ k → IsSound s → IsSound (start_in k s).1
unfolding start_in
start-IsSound server_new s e h = is_running refl (new_phase s e h) refl refl
start-IsSound server_running s e h = h
start-IsSound server_stopping s e h = h
start-IsSound server_stopped s e h = h

counted-IsSound :
    (s : Server)
    → s.state ≡ server_running
    → IsSound s
    → IsSound (record s { connections = suc s.connections })
counted-IsSound s e (is_running f p h u) = is_running f p h u
counted-IsSound s e (is_new f p c h) = absurd cc
counted-IsSound s e (is_stopping f p) = absurd cc
counted-IsSound s e (http_is_down f p h) = absurd cc
counted-IsSound s e (is_waiting f p c) = absurd cc
counted-IsSound s e (has_waited f p c n) = absurd cc
counted-IsSound s e (is_stopped f p c n) = absurd cc

reserve-IsSound :
    (k : ServerState) (s : Server) → s.state ≡ k → IsSound s → IsSound (reserve_in k s).1
unfolding reserve_in
reserve-IsSound server_running s e h = counted-IsSound s e h
reserve-IsSound server_new s e h = h
reserve-IsSound server_stopping s e h = h
reserve-IsSound server_stopped s e h = h

release-IsSound : (s : Server) → 0 < s.connections → IsSound s → IsSound (release_connection s)
unfolding release_connection
release-IsSound s some_left (is_new e p c h) = absurd (omega arith)
release-IsSound s some_left (is_running e p h u) = is_running e p h u
release-IsSound s some_left (is_stopping e p) = is_stopping e p
release-IsSound s some_left (http_is_down e p h) = http_is_down e p h
release-IsSound s some_left (is_waiting e p c) = is_waiting e p c
release-IsSound s some_left (has_waited e p c n) = absurd (omega arith)
release-IsSound s some_left (is_stopped e p c n) = absurd (omega arith)

pub entered_state : (s : Server) → s.phase ≡ not_entered → s.state ≡ server_stopped → IsSound s → ⊥
entered_state s at e (is_new f p c h) = absurd cc
entered_state s at e (is_running f p h u) = absurd cc
entered_state s at e (is_stopping f p) = absurd cc
entered_state s at e (http_is_down f p h) = absurd cc
entered_state s at e (is_waiting f p c) = absurd cc
entered_state s at e (has_waited f p c n) = absurd cc
entered_state s at e (is_stopped f p c n) = absurd cc

begin_in-IsSound :
    (k : ServerState) (s : Server)
    → s.state ≡ k
    → s.phase ≡ not_entered
    → IsSound s
    → IsSound (begin_in k s)
unfolding begin_in
begin_in-IsSound server_new s e at h = is_stopping refl refl
begin_in-IsSound server_running s e at h = is_stopping refl refl
begin_in-IsSound server_stopping s e at h = is_stopping refl refl
begin_in-IsSound server_stopped s e at h = absurd (entered_state s at e h)

begin-IsSound : (p : Phase) (s : Server) → s.phase ≡ p → IsSound s → IsSound (begin_once p s)
unfolding begin_once
begin-IsSound not_entered s at h = begin_in-IsSound s.state s refl at h
begin-IsSound before_http s at h = h
begin-IsSound before_hub s at h = h
begin-IsSound before_wait s at h = h
begin-IsSound before_end s at h = h
begin-IsSound left_once s at h = h

close_http-IsSound : (s : Server) → s.phase ≡ before_http → IsSound s → IsSound (close_http s)
unfolding close_http
close_http-IsSound s at (is_stopping e p) = http_is_down e refl refl
close_http-IsSound s at (is_new e p c h) = absurd cc
close_http-IsSound s at (is_running e p h u) = absurd cc
close_http-IsSound s at (http_is_down e p h) = absurd cc
close_http-IsSound s at (is_waiting e p c) = absurd cc
close_http-IsSound s at (has_waited e p c n) = absurd cc
close_http-IsSound s at (is_stopped e p c n) = absurd cc

shut_hub-IsSound : (s : Server) → s.phase ≡ before_hub → IsSound s → IsSound (shut_hub s)
unfolding shut_hub
shut_hub-IsSound s at (http_is_down e p h) = is_waiting e refl (h, refl)
shut_hub-IsSound s at (is_new e p c h) = absurd cc
shut_hub-IsSound s at (is_running e p h u) = absurd cc
shut_hub-IsSound s at (is_stopping e p) = absurd cc
shut_hub-IsSound s at (is_waiting e p c) = absurd cc
shut_hub-IsSound s at (has_waited e p c n) = absurd cc
shut_hub-IsSound s at (is_stopped e p c n) = absurd cc

-- Either connections.Wait returns, with nothing counted, or a connection is.
pub waited :
    (s : Server)
    → ((s.connections ≡ 0) × (wait_connections s ≡ some (record s { phase = before_end })))
      ⊎ ((0 < s.connections) × (wait_connections s ≡ none))
unfolding wait_connections
waited s = elim (Bool-cases (s.connections == 0)) [
  | inl zeroed ↦ inl ((==_iff s.connections 0).0 zeroed, rw zeroed refl)
  | inr some_left ↦ inr (ground arith, rw some_left refl)
]

wait-IsSound :
    (s t : Server) → s.phase ≡ before_wait → wait_connections s ≡ some t → IsSound s → IsSound t
wait-IsSound s t at over (is_waiting e p c) = elim (waited s) [
  | inl (empty, ends) ↦
      let same : record s { phase = before_end } ≡ t = cc in rw (← same) (has_waited e refl c empty)
  | inr (some_left, stuck) ↦ absurd cc
]
wait-IsSound s t at over (is_new e p c h) = absurd cc
wait-IsSound s t at over (is_running e p h u) = absurd cc
wait-IsSound s t at over (is_stopping e p) = absurd cc
wait-IsSound s t at over (http_is_down e p h) = absurd cc
wait-IsSound s t at over (has_waited e p c n) = absurd cc
wait-IsSound s t at over (is_stopped e p c n) = absurd cc

end-IsSound : (s : Server) → s.phase ≡ before_end → IsSound s → IsSound (end_shutdown s)
unfolding end_shutdown
end-IsSound s at (has_waited e p c n) = is_stopped refl refl c n
end-IsSound s at (is_new e p c h) = absurd cc
end-IsSound s at (is_running e p h u) = absurd cc
end-IsSound s at (is_stopping e p) = absurd cc
end-IsSound s at (http_is_down e p h) = absurd cc
end-IsSound s at (is_waiting e p c) = absurd cc
end-IsSound s at (is_stopped e p c n) = absurd cc

Step-IsSound : {s t : Server} → Step s t → IsSound s → IsSound t
unfolding start reserve_connection begin_shutdown
Step-IsSound {s} starts h = start-IsSound s.state s refl h
Step-IsSound {s} reserves h = reserve-IsSound s.state s refl h
Step-IsSound {s} (releases some_left) h = release-IsSound s some_left h
Step-IsSound {s} begins h = begin-IsSound s.phase s refl h
Step-IsSound {s} (closes_http at) h = close_http-IsSound s at h
Step-IsSound {s} (shuts_hub at) h = shut_hub-IsSound s at h
Step-IsSound {s} {t} (waits at over) h = wait-IsSound s t at over h
Step-IsSound {s} (finishes at) h = end-IsSound s at h

-- Every server that is reached from a new one, by calls of Start, reserveConnection and Shutdown, the
-- ends of connections and the parts of Shutdown in any order, is in one of the states of `IsSound`. So
-- no connection is counted before it runs, from when connections.Wait has returned on, or after it has
-- stopped; and it has stopped only after its HTTP server, if it has one, and its hub were shut down.
pub Reaches-IsSound : {s : Server} → Reaches new_server s → IsSound s
unfolding new_server
Reaches-IsSound here = is_new refl refl refl refl
Reaches-IsSound (after r step) = Step-IsSound step (Reaches-IsSound r)
