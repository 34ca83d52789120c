-- ===== src/Probe/Exchange/Matched.antt =====
-- Which frames read of cmd/devprobe/main.go takes for a response, and the numbers that send gives.
use game_server_go.Base.{
  ℕ, ◌≡◌, ◌≢◌, refl, ap, ◌∙◌, ◌↔◌, ◌<◌, ◌^◌, inl, inr, Bool-cases, Option, none, some, Result, ok,
  err, and_then, arith, ◌==◌ as same_number, ==_iff,
}
use game_server_go.Base.Text.{Bytes}
use game_server_go.Messages.{Message, MsgType}
use game_server_go.Protocol.Codec.{Frame, CodecError, decode}
use game_server_go.Protocol.Ids.{id_error}
use game_server_go.Probe.{WebSocket, Probe, no_read_deadline, next_seq}
use game_server_go.Probe.Exchange.{
  binary_message, wrapped, body_of, check_frame, check_read, read_next, read,
}

-- A sequence number that is sent fits 32 bits and is not 0, which the server would refuse.
pub next_seq_range : (seq : ℕ) → (next_seq seq ≢ 0) × (next_seq seq < 2 ^ 32)
unfolding next_seq
next_seq_range seq = (λ h. ground arith, ground arith)

module _ (unmarshal : MsgType → Bytes → Option Message) (msg_id seq : ℕ)
    (destination : MsgType) where
  -- A frame that answers the request: its number and identifier are those expected, it is no error
  -- frame, and its body parses to the message.
  pub record IsMatch (wire : Bytes) (m : Message) : Type 0 where
    pub frame : Frame
    pub decoded : decode wire ≡ ok frame
    pub same_seq : frame.seq ≡ seq
    pub same_id : frame.msg_id ≡ msg_id
    pub no_error : frame.msg_id ≢ id_error
    pub parsed : unmarshal destination frame.body ≡ some m

  frame_match :
      (f : Frame) (m : Message)
      → check_frame unmarshal msg_id seq destination (ok f) ≡ ok m
      → (f.seq ≡ seq)
        × (f.msg_id ≡ msg_id)
        × (f.msg_id ≢ id_error)
        × (unmarshal destination f.body ≡ some m)
  unfolding check_frame body_of
  frame_match f m h =
      ground (arith, ==_iff f.seq seq, ==_iff f.msg_id msg_id, ==_iff f.msg_id id_error)

  match_frame :
      (f : Frame) (m : Message)
      → f.seq ≡ seq
      → f.msg_id ≡ msg_id
      → f.msg_id ≢ id_error
      → unmarshal destination f.body ≡ some m
      → check_frame unmarshal msg_id seq destination (ok f) ≡ ok m
  unfolding check_frame body_of
  match_frame f m s i n u =
      ground (arith, ==_iff f.seq seq, ==_iff f.msg_id msg_id, ==_iff f.msg_id id_error)

  decoded-IsMatch :
      (wire : Bytes) (r : Result CodecError Frame) (m : Message)
      → decode wire ≡ r
      → check_frame unmarshal msg_id seq destination r ≡ ok m
      → IsMatch wire m
  unfolding check_frame
  decoded-IsMatch wire (err e) m d h = absurd (ground arith)
  decoded-IsMatch wire (ok f) m d h =
      let (s, i, n, u) = frame_match f m h in
      record { frame = f; decoded = d; same_seq = s; same_id = i; no_error = n; parsed = u }

  read-IsMatch :
      (r : Result Bytes (ℕ × Bytes)) (m : Message)
      → check_read unmarshal msg_id seq destination r ≡ ok m
      → (wire : Bytes) × (r ≡ ok (binary_message, wire)) × IsMatch wire m
  unfolding check_read
  read-IsMatch (err e) m h = absurd (ground arith)
  read-IsMatch (ok (t, wire)) m h = elim (Bool-cases (same_number t binary_message)) [
    | inl binary ↦ (
      wire,
      ap (λ n. ok (n, wire)) ((==_iff t binary_message).0 binary),
      decoded-IsMatch wire (decode wire) m refl (ground arith),
    )
    | inr other ↦ absurd (ground arith)
  ]

  pub match_read :
      (wire : Bytes) (m : Message)
      → IsMatch wire m
      → check_read unmarshal msg_id seq destination (ok (binary_message, wire)) ≡ ok m
  unfolding check_read
  match_read wire m x =
      ap (check_frame unmarshal msg_id seq destination) x.decoded
      ∙ match_frame x.frame m x.same_seq x.same_id x.no_error x.parsed

  module _ {W : Type 0} (ws : WebSocket W) (m : Message) where
    -- After the deadline is set, the next message is a binary one whose frame matches.
    abbrev pub IsAnswered : Option Bytes × W → Type 0
    IsAnswered d =
        (d.0 ≡ none)
        × (wire : Bytes) × ((ws.read_message d.1).0 ≡ ok (binary_message, wire))
        × IsMatch wire m

    received_iff :
        (next : Result Bytes (ℕ × Bytes) × W) (n : ℕ)
        → ((read_next unmarshal msg_id seq destination ws n next).0 ≡ ok m)
          ↔ ((wire : Bytes) × (next.0 ≡ ok (binary_message, wire)) × IsMatch wire m)
    unfolding read_next
    received_iff (r, w) n = (
      read-IsMatch r m,
      λ (wire, e, x). ap (check_read unmarshal msg_id seq destination) e ∙ match_read wire m x,
    )

    waited_iff :
        (d : Option Bytes × W) (n : ℕ)
        → ((and_then (wrapped (no_read_deadline msg_id) n d) (λ u p.
              read_next unmarshal msg_id seq destination ws p.seq (ws.read_message p.conn))).0
            ≡ ok m)
          ↔ IsAnswered d
    unfolding wrapped
    waited_iff (none, w) n = (
      λ h. let (wire, e, x) = (received_iff (ws.read_message w) n).0 h in (refl, wire, e, x),
      λ (d, wire, e, x). (received_iff (ws.read_message w) n).1 (wire, e, x),
    )
    waited_iff (some e, w) n =
        (λ h. absurd (ground arith), λ (d, wire, r, x). absurd (ground arith))

    -- read returns a message exactly when the deadline can be set and the next message is a binary
    -- one whose frame decodes, has the request's number and the expected identifier, is no error
    -- frame, and has a body that parses to that message. Any other frame is an error.
    pub read_iff :
        (p : Probe W)
        → ((read unmarshal msg_id seq destination ws p).0 ≡ ok m)
          ↔ IsAnswered (ws.set_read_deadline p.conn)
    unfolding read
    read_iff p = waited_iff (ws.set_read_deadline p.conn) p.seq
