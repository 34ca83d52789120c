-- ===== src/Transport.antt =====
-- internal/transport: the send buffer of connection.go and the loop of hub.go, one event at a time.
pub mod Delivery
pub mod Server
pub mod Pumps
pub mod Callers
use game_server_go.Base.{
  ℕ, Bool, true, false, not, List, [], ◌∷◌, ◌++◌, Option, none, some, ltb, length, ◌==◌ as same_id,
  if◌then◌else◌,
}
use game_server_go.Base.Int.{ℤ, eqb_ℤ}
use game_server_go.Base.Text.{Bytes}

abbrev pub send_buf_size : ℕ
send_buf_size = 256

-- What the hub reads of a connection: its address, the player of its session, and its send buffer.
pub record Connection : Type 0 where
  pub address : ℕ
  pub uid : ℤ
  pub send : List Bytes
  pub closed : Bool

pub data EnqueueError : Type 0 where
  connection_closed send_buffer_full : EnqueueError

-- enqueue: never blocks; an error leaves the connection as it is.
unfoldable pub enqueue : Bytes → Connection → Option EnqueueError × Connection
enqueue wire c =
    if c.closed
    then (some connection_closed, c)
    else if ltb (length c.send) send_buf_size
    then (none, record c { send = c.send ++ (wire ∷ []) })
    else (some send_buffer_full, c)

-- stop: a second call finds the connection closed and does nothing.
unfoldable pub stop : Connection → Connection
stop c = record c { closed = true }

-- The receive of writePump takes the oldest message.
unfoldable pub take_message : Connection → Connection
take_message c = elim c.send [ [] ↦ c | wire ∷ rest ↦ record c { send = rest } ]

-- The hub's connections in the order of an iteration, which Go leaves open, and those that it has
-- stopped and forgotten. Run ends when the hub is closed.
pub record Hub : Type 0 where
  pub connections : List Connection
  pub stopped : List Connection
  pub done : Bool

-- What the loop receives, and what the pumps of a connection do to it meanwhile.
pub data Event : Type 0 where
  register_connection : Connection → Event
  unregister_connection : ℕ → Event
  broadcast : Bytes → Event
  push_to_uid : ℤ → Bytes → Event
  count close_all : Event
  message_written stopped_itself : ℕ → Event

-- What the loop sends back: whether a push was delivered, or how many connections there are.
pub data Answer : Type 0 where
  nothing : Answer
  delivered : Bool → Answer
  online : ℕ → Answer

find_connection : ℕ → List Connection → Option Connection
find_connection a [] = none
find_connection a (c ∷ cs) = if same_id c.address a then some c else find_connection a cs

without : ℕ → List Connection → List Connection
without a [] = []
without a (c ∷ cs) = let rest = without a cs in if same_id c.address a then rest else c ∷ rest

-- h.connections[conn] = struct{}{}: a set, so a connection stands there once.
add_connection : Connection → List Connection → List Connection
unfolding without
add_connection c cs = c ∷ without c.address cs

change : (Connection → Connection) → ℕ → List Connection → List Connection
change f a [] = []
change f a (c ∷ cs) =
    let rest = change f a cs in if same_id c.address a then f c ∷ rest else c ∷ rest

send_all : Bytes → List Connection → List Connection
unfolding enqueue
send_all wire [] = []
send_all wire (c ∷ cs) = (enqueue wire c).1 ∷ send_all wire cs

-- The loop of a push stops at the first connection of the player that takes the message.
unfoldable pub push : ℤ → Bytes → List Connection → Bool × List Connection
unfolding enqueue
push uid wire [] = (false, [])
push uid wire (c ∷ cs) =
    let rest = push uid wire cs in
    let onward : Bool × List Connection = (rest.0, c ∷ rest.1) in
    if eqb_ℤ c.uid uid
    then elim (enqueue wire c).0 [ none ↦ (true, (enqueue wire c).1 ∷ cs) | some e ↦ onward ]
    else onward

stop_all : List Connection → List Connection
unfolding stop
stop_all [] = []
stop_all (c ∷ cs) = stop c ∷ stop_all cs

leave : Option Connection → Hub → Hub
unfolding without stop
leave none h = h
leave (some c) h = record h {
  connections = without c.address h.connections;
  stopped = stop c ∷ h.stopped;
}

unfoldable handle : Event → Hub → Answer × Hub
unfolding add_connection leave find_connection send_all push stop_all change take_message stop
handle (register_connection c) h =
    (nothing, record h { connections = add_connection c h.connections })
handle (unregister_connection a) h = (nothing, leave (find_connection a h.connections) h)
handle (broadcast wire) h = (nothing, record h { connections = send_all wire h.connections })
handle (push_to_uid uid wire) h =
    let r = push uid wire h.connections in (delivered r.0, record h { connections = r.1 })
handle count h = (online (length h.connections), h)
handle close_all h = (
  nothing,
  record h { connections = []; stopped = stop_all h.connections ++ h.stopped; done = true },
)
handle (message_written a) h =
    (nothing, record h { connections = change take_message a h.connections })
handle (stopped_itself a) h = (nothing, record h { connections = change stop a h.connections })

-- After the end of the loop, callers see that it is done: nothing is delivered, nobody is online.
late : Event → Answer
late (push_to_uid uid wire) = delivered false
late count = online 0
late e = nothing

unfoldable step_unless : Bool → Event → Hub → Answer × Hub
unfolding handle late
step_unless true e h = (late e, h)
step_unless false e h = handle e h

unfoldable pub hub_step : Event → Hub → Answer × Hub
unfolding step_unless
hub_step e h = step_unless h.done e h

unfoldable pub run_hub : List Event → Hub → Hub
run_hub [] h = h
run_hub (e ∷ es) h = run_hub es (hub_step e h).1
