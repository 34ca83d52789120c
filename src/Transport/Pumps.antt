-- ===== src/Transport/Pumps.antt =====
-- internal/transport/connection.go: sending a message, and the loops of the two pumps. What the
-- websocket delivers and how it takes a message are parameters over a state `W`.
use game_server_go.Base.{
  ℕ, Bool, false, List, [], ◌∷◌, Option, none, some, Result, ok, err, if◌then◌else◌,
}
use game_server_go.Base.Text.{Bytes}
use game_server_go.Messages.{Message}
use game_server_go.Protocol.Codec.{CodecError, encode}
use game_server_go.Session.{Session, Conn, new_session}
use game_server_go.Transport.{
  Connection, EnqueueError, connection_closed, send_buffer_full, enqueue,
}

-- maxWebSocketMessageSize: the frame's header included.
abbrev pub max_web_socket_message_size : ℕ
max_web_socket_message_size = 4194304

-- newConnection, of a connection at `address`: nothing waits to be sent, and nobody has logged in.
unfoldable pub new_connection : {C : Type 0} → ℕ → Connection × Session C
new_connection {C} address =
    let sess : Session C = new_session in
    (record { address = address; uid = sess.uid; send = []; closed = false }, sess)

pub data SendError : Type 0 where
  not_encoded : CodecError → SendError
  closed : SendError

-- A full buffer drops the message, and that is no error.
sent : Option EnqueueError × Connection → Option SendError × Connection
sent (none, c) = (none, c)
sent (some connection_closed, c) = (some closed, c)
sent (some send_buffer_full, c) = (none, c)

send_encoded : Result CodecError Bytes → Connection → Option SendError × Connection
unfolding sent
send_encoded (err e) c = (some (not_encoded e), c)
send_encoded (ok wire) c = sent (enqueue wire c)

-- sendMessage
unfoldable pub send_message :
    (Message → Option Bytes) → ℕ → ℕ → Option Message → Connection → Option SendError × Connection
unfolding send_encoded
send_message marshal seq msg_id payload c = send_encoded (encode marshal msg_id seq payload) c

-- Connection.Reply and Connection.Push
unfoldable pub reply :
    (Message → Option Bytes) → ℕ → ℕ → Option Message → Connection → Option SendError × Connection
unfolding send_message
reply marshal seq msg_id payload c = send_message marshal seq msg_id payload c

unfoldable pub push_message :
    (Message → Option Bytes) → ℕ → Option Message → Connection → Option SendError × Connection
unfolding send_message
push_message marshal msg_id payload c = send_message marshal 0 msg_id payload c

-- The connection as what its session sends through.
unfoldable connection_of : (Message → Option Bytes) → Conn SendError Connection
unfolding reply push_message
connection_of marshal = record { conn_reply = reply marshal; conn_push = push_message marshal }

-- What ReadMessage returns.
pub data Received : Type 0 where
  read_error : Received
  non_binary : Received
  binary : Bytes → Received

module _ {W : Type 0} where
  -- The loop of readPump: `dispatch` says whether its error is ErrFatalProtocol.
  unfoldable pub read_loop : (Bytes → W → Bool × W) → List Received → W → W
  read_loop dispatch [] w = w
  read_loop dispatch (read_error ∷ rest) w = w
  read_loop dispatch (non_binary ∷ rest) w = read_loop dispatch rest w
  read_loop dispatch (binary data_bytes ∷ rest) w =
      let r = dispatch data_bytes w in
      let onward = read_loop dispatch rest r.1 in if r.0 then r.1 else onward

  -- readPump: after the loop it leaves the hub, runs the session's callbacks and stops, in this order.
  unfoldable pub read_pump :
      (Bytes → W → Bool × W) → (W → W) → (W → W) → (W → W) → List Received → W → W
  unfolding read_loop
  read_pump dispatch unregister close_session stop received w =
      stop (close_session (unregister (read_loop dispatch received w)))

-- What the select of writePump receives.
pub data Selected : Type 0 where
  done : Selected
  message_ready : Bytes → Selected
  ping_due : Selected

module _ {W : Type 0} where
  -- The loop of writePump: each write says whether it succeeded.
  unfoldable pub write_loop : (Bytes → W → Bool × W) → (W → Bool × W) → List Selected → W → W
  write_loop write ping [] w = w
  write_loop write ping (done ∷ rest) w = w
  write_loop write ping (message_ready wire ∷ rest) w =
      let r = write wire w in
      let onward = write_loop write ping rest r.1 in if r.0 then onward else r.1
  write_loop write ping (ping_due ∷ rest) w =
      let r = ping w in let onward = write_loop write ping rest r.1 in if r.0 then onward else r.1

  -- writePump stops the connection when its loop ends.
  unfoldable pub write_pump :
      (Bytes → W → Bool × W) → (W → Bool × W) → (W → W) → List Selected → W → W
  unfolding write_loop
  write_pump write ping stop selected w = stop (write_loop write ping selected w)
