-- ===== src/Probe/Exchange.antt =====
-- send and read of cmd/devprobe/main.go.
pub mod Matched
use game_server_go.Base.{
  ℕ, not, Bool, true, false, List, Option, none, some, Result, ok, err, and_then,
  ◌==◌ as same_number, if◌then◌else◌,
}
use game_server_go.Base.Text.{Bytes}
use game_server_go.Messages.{Message, MsgType}
use game_server_go.Messages.Account.{ErrorResp}
use game_server_go.Protocol.Codec.{Frame, CodecError, encode, decode}
use game_server_go.Protocol.Ids.{id_error}
use game_server_go.Probe.{
  WebSocket, Probe, ProbeError, not_encoded, no_write_deadline, not_written, no_read_deadline,
  not_read, not_binary, not_decoded, wrong_seq, wrong_msg_id, bad_error_body, server_error,
  bad_body, next_seq,
}

-- websocket.BinaryMessage
abbrev pub binary_message : ℕ
binary_message = 2

-- An error of an operation on the connection, which the source wraps.
unfoldable pub wrapped :
    {W : Type 0}
    → (Bytes → ProbeError)
    → ℕ
    → Option Bytes × W
    → Result ProbeError (Unit {0}) × Probe W
wrapped wrap seq (none, w) = (ok tt, record { conn = w; seq = seq })
wrapped wrap seq (some e, w) = (err (wrap e), record { conn = w; seq = seq })

module _ {W : Type 0} (ws : WebSocket W) where
  write_frame : ℕ → Result CodecError Bytes → Probe W → Result ProbeError ℕ × Probe W
  unfolding wrapped
  write_frame msg_id (err e) p = (err (not_encoded msg_id e), p)
  write_frame msg_id (ok frame) p =
      and_then (wrapped (no_write_deadline msg_id) p.seq (ws.set_write_deadline p.conn)) λ d p1.
        and_then (wrapped (not_written msg_id) p1.seq (ws.write_message frame p1.conn))
          λ done p2. (ok p2.seq, p2)

  -- send
  unfoldable pub send :
      (Message → Option Bytes) → ℕ → Message → Probe W → Result ProbeError ℕ × Probe W
  unfolding write_frame
  send marshal msg_id payload p =
      let seq = next_seq p.seq in
      write_frame msg_id (encode marshal msg_id seq (some payload)) (record p { seq = seq })

-- The server's own error, if its body parses.
unfoldable pub error_of : Option Message → ProbeError
error_of (some (Message.error_resp r)) = server_error r.code r.msg
error_of _ = bad_error_body

body_of : ℕ → Option Message → Result ProbeError Message
body_of msg_id none = err (bad_body msg_id)
body_of msg_id (some m) = ok m

module _ (unmarshal : MsgType → Bytes → Option Message) (expected_msg_id expected_seq : ℕ)
    (destination : MsgType) where
  check_frame : Result CodecError Frame → Result ProbeError Message
  unfolding error_of body_of
  check_frame (err e) = err (not_decoded expected_msg_id e)
  check_frame (ok message) =
      if not (same_number message.seq expected_seq)
      then err (wrong_seq message.seq expected_seq)
      else if same_number message.msg_id id_error
      then err (error_of (unmarshal MsgType.error_resp message.body))
      else if not (same_number message.msg_id expected_msg_id)
      then err (wrong_msg_id message.msg_id expected_msg_id)
      else body_of expected_msg_id (unmarshal destination message.body)

  unfoldable pub check_read : Result Bytes (ℕ × Bytes) → Result ProbeError Message
  unfolding check_frame
  check_read (err e) = err (not_read expected_msg_id e)
  check_read (ok (message_type, frame)) =
      if not (same_number message_type binary_message)
      then err (not_binary message_type)
      else check_frame (decode frame)

  module _ {W : Type 0} (ws : WebSocket W) where
    read_next : ℕ → Result Bytes (ℕ × Bytes) × W → Result ProbeError Message × Probe W
    unfolding check_read
    read_next seq (r, w) = (check_read r, record { conn = w; seq = seq })

    -- read: the destination is of the type that unmarshals.
    unfoldable pub read : Probe W → Result ProbeError Message × Probe W
    unfolding read_next wrapped
    read p =
        and_then (wrapped (no_read_deadline expected_msg_id) p.seq (ws.set_read_deadline p.conn))
          λ d p1. read_next p1.seq (ws.read_message p1.conn)

-- close, which drops both errors
unfoldable pub close : {W : Type 0} → WebSocket W → Probe W → Probe W
close ws p = record p { conn = ws.close (ws.write_close p.conn) }
