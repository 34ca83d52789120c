-- ===== src/Transport/Callers/Cleared.antt =====
-- What hub.go has dropped is closed, and nothing is left when the loop ends.
use game_server_go.Base.{◌≡◌, refl, true, false, Bool, List, [], ◌∷◌, ◌++◌, Option, none, some, All}
use game_server_go.Transport.{
  Connection, Hub, Event, register_connection, unregister_connection, broadcast, push_to_uid, count,
  close_all, message_written, stopped_itself, stop, find_connection, stop_all, leave, handle,
  step_unless, hub_step,
}

abbrev pub IsClosed : Connection → Type 0
IsClosed c = c.closed ≡ true

-- What the hub has forgotten is closed, and a hub that is done knows no connection.
abbrev pub IsCleared : Hub → Type 0
IsCleared h = All IsClosed h.stopped × (h.done ≡ true → h.connections ≡ [])

stop_all-IsClosed :
    (cs stopped : List Connection) → All IsClosed stopped → All IsClosed (stop_all cs ++ stopped)
unfolding stop_all stop
stop_all-IsClosed [] stopped k = k
stop_all-IsClosed (c ∷ cs) stopped k = (refl, stop_all-IsClosed cs stopped k)

leave-IsCleared :
    (found : Option Connection) (h : Hub) → h.done ≡ false → IsCleared h → IsCleared (leave found h)
unfolding leave stop
leave-IsCleared none h on k = k
leave-IsCleared (some c) h on k = ((refl, k.0), λ off. absurd cc)

handle-IsCleared : (e : Event) (h : Hub) → h.done ≡ false → IsCleared h → IsCleared (handle e h).1
unfolding handle
handle-IsCleared (register_connection c) h on k = (k.0, λ off. absurd cc)
handle-IsCleared (unregister_connection a) h on k =
    leave-IsCleared (find_connection a h.connections) h on k
handle-IsCleared (broadcast wire) h on k = (k.0, λ off. absurd cc)
handle-IsCleared (push_to_uid uid wire) h on k = (k.0, λ off. absurd cc)
handle-IsCleared count h on k = k
handle-IsCleared close_all h on k = (stop_all-IsClosed h.connections h.stopped k.0, λ off. refl)
handle-IsCleared (message_written a) h on k = (k.0, λ off. absurd cc)
handle-IsCleared (stopped_itself a) h on k = (k.0, λ off. absurd cc)

step_unless-IsCleared :
    (over : Bool) (e : Event) (h : Hub)
    → h.done ≡ over
    → IsCleared h
    → IsCleared (step_unless over e h).1
unfolding step_unless
step_unless-IsCleared true e h o k = k
step_unless-IsCleared false e h o k = handle-IsCleared e h o k

pub hub_step-IsCleared : (e : Event) (h : Hub) → IsCleared h → IsCleared (hub_step e h).1
unfolding hub_step
hub_step-IsCleared e h k = step_unless-IsCleared h.done e h refl k
