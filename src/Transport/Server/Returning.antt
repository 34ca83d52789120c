-- ===== src/Transport/Server/Returning.antt =====
-- Shutdown of internal/transport/server.go as a whole, by the goroutine that enters shutdownOnce.
use game_server_go.Base.{
  ap, ◌∙◌, ℕ, zero, suc, ◌-◌, ◌<◌, ◌≤◌, ◌≡◌, refl, ◌⊎◌, inl, inr, Bool, true, false, Option, none,
  some, arith,
}
use game_server_go.Transport.Server.{
  ServerState, server_new, server_running, server_stopping, server_stopped, not_entered, before_end,
  Server, server_closed, new_server, start, reserve_connection, release_connection, begin_in,
  close_http, shut_hub, wait_connections, end_shutdown,
}
use game_server_go.Transport.Server.Shutdown.{
  Reaches, IsSound, Reaches-IsSound, waited, entered_state,
}

-- The ends of `n` of the connections that are counted.
unfoldable pub drain : ℕ → Server → Server
drain zero s = s
drain (suc n) s = drain n (release_connection s)

after_wait : Option Server → Option Server
after_wait none = none
after_wait (some s) = some (end_shutdown s)

-- What follows the first section, where `n` connections end.
closing : ℕ → Server → Option Server
unfolding after_wait
closing n s = after_wait (wait_connections (drain n (shut_hub (close_http s))))

closing_in : ServerState → ℕ → Server → Option Server
unfolding closing begin_in
closing_in server_new n s = closing n (begin_in server_new s)
closing_in server_running n s = closing n (begin_in server_running s)
closing_in server_stopping n s = closing n (begin_in server_stopping s)
closing_in server_stopped n s = some (begin_in server_stopped s)

-- The first call of Shutdown, where `n` of the connections that are counted end by themselves or since
-- the hub has stopped them. There is no time limit on the others: while one is left, nothing comes back.
unfoldable pub shut_down : ℕ → Server → Option Server
unfolding closing_in
shut_down n s = closing_in s.state n s

drain_lem : (n : ℕ) (s : Server) → drain n s ≡ record s { connections = s.connections - n }
unfolding drain release_connection
drain_lem zero s = ap (λ k. record s { connections = k }) (omega arith)
drain_lem (suc n) s =
    drain_lem n (release_connection s) ∙ ap (λ k. record s { connections = k }) (omega arith)

-- A server that Shutdown has returned from: it has stopped, its hub and its HTTP server are shut down, it
-- starts no more and takes no connection.
abbrev pub IsShutDown : Bool → Server → Type 0
IsShutDown had_http t =
    (t.state ≡ server_stopped)
    × (t.hub_done ≡ true)
    × (t.http_closed ≡ had_http)
    × (t.connections ≡ 0)
    × (start t ≡ (some server_closed, t))
    × (reserve_connection t ≡ (false, t))

-- Either enough connections end, and Shutdown returns; or it does not.
abbrev pub Returns : ℕ → ℕ → Bool → Option Server → Type 0
Returns n counted had_http o =
    ((counted ≤ n) × (t : Server) × (o ≡ some t) × IsShutDown had_http t)
    ⊎ ((n < counted) × (o ≡ none))

closing-Returns : (n : ℕ) (s : Server) → Returns n s.connections s.http_srv (closing n s)
unfolding closing close_http shut_hub end_shutdown after_wait start reserve_connection
closing-Returns n s =
    let waiting : Server = record (shut_hub (close_http s)) { connections = s.connections - n } in
    elim (waited waiting) [
      | inl (empty, ends) ↦ inl (
        omega arith,
        end_shutdown (record waiting { phase = before_end }),
        rw (drain_lem n (shut_hub (close_http s)), ends) refl,
        (refl, refl, refl, empty, refl, refl),
      )
      | inr (some_left, stuck) ↦
          inr (omega arith, rw (drain_lem n (shut_hub (close_http s)), stuck) refl)
    ]

closing_in-Returns :
    (k : ServerState) (n : ℕ) (s : Server)
    → s.state ≡ k
    → s.phase ≡ not_entered
    → IsSound s
    → Returns n s.connections s.http_srv (closing_in k n s)
unfolding closing_in begin_in
closing_in-Returns server_new n s e at h = closing-Returns n (begin_in server_new s)
closing_in-Returns server_running n s e at h = closing-Returns n (begin_in server_running s)
closing_in-Returns server_stopping n s e at h = closing-Returns n (begin_in server_stopping s)
closing_in-Returns server_stopped n s e at h = absurd (entered_state s at e h)

-- On every server that is reached from a new one, the first call of Shutdown returns exactly if as many
-- connections end as are counted. The server has then stopped, its hub and its HTTP server, if it has one,
-- are shut down, it starts no more and takes no connection. While a connection is left it does not return.
pub shut_down-Returns :
    {s : Server}
    → Reaches new_server s
    → s.phase ≡ not_entered
    → (n : ℕ) → Returns n s.connections s.http_srv (shut_down n s)
unfolding shut_down
shut_down-Returns {s} reached first n =
    closing_in-Returns s.state n s refl first (Reaches-IsSound reached)
