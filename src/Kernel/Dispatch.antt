-- ===== src/Kernel/Dispatch.antt =====
-- Dispatch, finish and sendError of internal/kernel/kernel.go.
pub mod Outcomes
pub mod Guards
use game_server_go.Base.{
  ℕ, Bool, true, false, Option, none, some, Result, ok, err, ◌==◌, if◌then◌else◌,
}
use game_server_go.Base.Equality.{nat_eq}
use game_server_go.Base.Int.{ℤ, wrap32}
use game_server_go.Base.Map.{get}
use game_server_go.Base.Text.{Bytes, utf8}
use game_server_go.Messages.{Message, MsgType}
use game_server_go.Protocol.Codec.{CodecError, Frame, decode}
use game_server_go.Protocol.Errors.{GoError, biz, internal, err_internal, err_invalid_param}
use game_server_go.Protocol.Ids.{id_error}
use game_server_go.Pipeline.{
  Context, Payload, message, opaque, Before, After, execute_before, execute_after,
}
use game_server_go.Kernel.{HandlerEntry, Kernel, Reply, with_msg_id}

-- The two ways in which a frame violates the protocol: ErrFatalProtocol.
pub data Fatal : Type 0 where
  undecodable : CodecError → Fatal
  zero_seq : Fatal

-- Session.Reply: session, sequence number, message identifier and payload. Its error, which the
-- kernel only logs, is the Boolean.
abbrev pub ReplyTo : Type 0 → Type 0
ReplyTo W = ℕ → ℕ → ℕ → Message → W → Bool × W

-- The error frame's payload: a business error's own code and text, or a fixed answer.
error_message : GoError → Message
error_message (biz code msg) = Message.error_resp (record { code = wrap32 code; msg = msg })
error_message (internal t) =
    Message.error_resp (record { code = wrap32 err_internal; msg = utf8 "internal server error" })

as_payload : Option Message → Option Payload
as_payload none = none
as_payload (some m) = some (message m)

-- The contexts that readPump makes: the connection's session, and no message identifier yet.
abbrev pub session_context : ℕ → Context
session_context s = record { session = some s; msg_id = none }

module _ {W : Type 0} (reply : ReplyTo W) where
  unfoldable pub send_error : Option ℕ → ℕ → GoError → W → W
  unfolding error_message
  send_error none seq e w = w
  send_error (some s) seq e w = (reply s seq id_error (error_message e) w).1

  finish_response : Option ℕ → ℕ → HandlerEntry W → Option Payload → W → W
  finish_response sess seq entry none w = w
  finish_response none seq entry (some p) w = w
  finish_response (some s) seq entry (some (opaque n)) w =
      send_error (some s) seq (biz err_internal (utf8 "invalid handler response")) w
  finish_response (some s) seq entry (some (message m)) w = (reply s seq entry.resp_id m w).1

  unfoldable pub finish : Option ℕ → ℕ → HandlerEntry W → Option Payload → Option GoError → W → W
  unfolding finish_response send_error
  finish sess seq entry response (some e) w = send_error sess seq e w
  finish sess seq entry response none w = finish_response sess seq entry response w

  -- From the call of the handler on. The handler gets the decoded request itself: what the before
  -- hooks returned for it is dropped, but their context is not.
  unfoldable pub call_handler : Kernel W → Option ℕ → ℕ → HandlerEntry W → Message → Before W → W
  unfolding as_payload
  call_handler k sess seq entry req b =
      let (result, w1) = entry.fn b.ctx req b.state in
      let a = execute_after k.hooks b.ctx (as_payload result.response) result.error w1 in
      finish sess seq entry a.value a.error a.state

  after_before : Kernel W → Option ℕ → ℕ → HandlerEntry W → Message → Before W → W
  after_before k sess seq entry req b =
      let called = call_handler k sess seq entry req b in
      elim b.error [ some e ↦ finish sess seq entry none (some e) b.state | none ↦ called ]

  with_request : Kernel W → Context → Frame → HandlerEntry W → Option Message → W → W
  unfolding after_before
  with_request k ctx frame entry none w =
      send_error ctx.session frame.seq (biz err_invalid_param (utf8 "invalid request payload")) w
  with_request k ctx frame entry (some req) w =
      after_before k ctx.session frame.seq entry req
        (execute_before k.hooks (with_msg_id ctx frame.msg_id) (message req) w)

  -- proto.Unmarshal into a new request of the handler's type is the parameter `unmarshal`.
  module _ (unmarshal : MsgType → Bytes → Option Message) where
    with_entry : Kernel W → Context → Frame → Option (HandlerEntry W) → W → W
    unfolding with_request
    with_entry k ctx frame none w =
        send_error ctx.session frame.seq (biz err_invalid_param (utf8 "unsupported message type")) w
    with_entry k ctx frame (some entry) w =
        with_request k ctx frame entry (unmarshal entry.req_type frame.body) w

    with_frame : Kernel W → Context → Result CodecError Frame → W → Option Fatal × W
    unfolding with_entry
    with_frame k ctx (err e) w = (some (undecodable e), w)
    with_frame k ctx (ok frame) w =
        if frame.seq == 0
        then (some zero_seq, w)
        else (none, with_entry k ctx frame (get frame.msg_id k.handlers) w)

    unfoldable pub dispatch : Kernel W → Context → Bytes → W → Option Fatal × W
    unfolding with_frame
    dispatch k ctx wire w = with_frame k ctx (decode wire) w
