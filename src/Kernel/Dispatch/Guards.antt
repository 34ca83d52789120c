-- ===== src/Kernel/Dispatch/Guards.antt =====
-- The two ways that a well-formed request takes through internal/kernel/kernel.go: past the before
-- hooks to its handler, or back with their error.
use game_server_go.Base.{
  ℕ, ◌≡◌, ◌≢◌, refl, inl, inr, Bool-cases, Option, none, some, ok, ◌==◌, ==_iff,
}
use game_server_go.Base.Equality.{nat_eq}
use game_server_go.Base.Int.{wrap32}
use game_server_go.Base.Map.{get}
use game_server_go.Base.Text.{Bytes, utf8}
use game_server_go.Messages.{Message, MsgType}
use game_server_go.Protocol.Codec.{Frame, decode}
use game_server_go.Protocol.Errors.{GoError, biz, internal, err_internal}
use game_server_go.Protocol.Ids.{id_error}
use game_server_go.Pipeline.{Context, Payload, message, opaque, execute_before}
use game_server_go.Kernel.{Kernel, HandlerEntry, with_msg_id}
use game_server_go.Kernel.Dispatch.{
  ReplyTo, session_context, error_message, send_error, finish, call_handler, after_before,
  with_request, with_entry, with_frame, dispatch,
}

-- A frame with a handler whose body is a request of the handler's type.
pub record IsRequest {W : Type 0} (unmarshal : MsgType → Bytes → Option Message) (k : Kernel W)
    (wire : Bytes) (frame : Frame) (h : HandlerEntry W) (req : Message) : Type 0 where
  pub decoded : decode wire ≡ ok frame
  pub numbered : frame.seq ≢ 0
  pub handled : get frame.msg_id k.handlers ≡ some h
  pub parsed : unmarshal h.req_type frame.body ≡ some req

module _ {W : Type 0} (reply : ReplyTo W) (unmarshal : MsgType → Bytes → Option Message) where
  dispatch_request :
      (k : Kernel W) (ctx : Context) (wire : Bytes) (frame : Frame) (h : HandlerEntry W)
      (req : Message) (w : W)
      → IsRequest unmarshal k wire frame h req
      → dispatch reply unmarshal k ctx wire w ≡ (
        none,
        after_before reply k ctx.session frame.seq h req
            (execute_before k.hooks (with_msg_id ctx frame.msg_id) (message req) w),
      )
  unfolding dispatch with_frame with_entry with_request
  dispatch_request k ctx wire frame h req w r = elim (Bool-cases (frame.seq == 0)) [
    | inl zeroed ↦ absurd (r.numbered ((==_iff frame.seq 0).0 zeroed))
    | inr fine ↦ rw (r.decoded, with_frame, fine, r.handled, with_entry, r.parsed, with_request)
  ]

  -- The path of a refused request.
  pub refused_lem :
      (k : Kernel W) (ctx : Context) (wire : Bytes) (frame : Frame) (h : HandlerEntry W)
      (req : Message) (w : W) (e : GoError)
      → IsRequest unmarshal k wire frame h req
      → (execute_before k.hooks (with_msg_id ctx frame.msg_id) (message req) w).error ≡ some e
      → dispatch reply unmarshal k ctx wire w ≡ (
        none,
        send_error reply ctx.session frame.seq e
            (execute_before k.hooks (with_msg_id ctx frame.msg_id) (message req) w).state,
      )
  unfolding after_before finish send_error
  refused_lem k ctx wire frame h req w e r x =
      rw (dispatch_request k ctx wire frame h req w r) (rw (x, after_before))

  -- The path of one that is not refused.
  pub handled_lem :
      (k : Kernel W) (ctx : Context) (wire : Bytes) (frame : Frame) (h : HandlerEntry W)
      (req : Message) (w : W)
      → IsRequest unmarshal k wire frame h req
      → (execute_before k.hooks (with_msg_id ctx frame.msg_id) (message req) w).error ≡ none
      → dispatch reply unmarshal k ctx wire w ≡ (
        none,
        call_handler reply k ctx.session frame.seq h req
            (execute_before k.hooks (with_msg_id ctx frame.msg_id) (message req) w),
      )
  unfolding after_before call_handler
  handled_lem k ctx wire frame h req w r x =
      rw (dispatch_request k ctx wire frame h req w r) (rw (x, after_before))

-- The payload of an error frame: the code, as an int32, and the text of a business error; of any other
-- error a fixed answer, which shows nothing of it.
abbrev pub error_frame : GoError → Message
error_frame (biz code msg) = Message.error_resp (record { code = wrap32 code; msg = msg })
error_frame (internal t) =
    Message.error_resp (record { code = wrap32 err_internal; msg = utf8 "internal server error" })

-- What the after hooks are given of a handler's response.
abbrev pub response_value : Option Message → Option Payload
response_value none = none
response_value (some m) = some (message m)

-- The state after the reply to a request of the session `s` with the sequence number `seq`, by what the
-- after hooks have returned: an error frame; nothing; the response; or, for a value that is no message, an
-- error frame.
abbrev pub answered : {W : Type 0} → ReplyTo W → ℕ → ℕ → ℕ → Option Payload → Option GoError → W → W
answered reply s seq resp_id v (some e) w = (reply s seq id_error (error_frame e) w).1
answered reply s seq resp_id none none w = w
answered reply s seq resp_id (some (message m)) none w = (reply s seq resp_id m w).1
answered reply s seq resp_id (some (opaque n)) none w =
    (reply s seq id_error (error_frame (biz err_internal (utf8 "invalid handler response"))) w).1

error_message_lem : (e : GoError) → error_message e ≡ error_frame e
unfolding error_message
error_message_lem (biz code msg) = refl
error_message_lem (internal t) = refl

module _ {W : Type 0} (reply : ReplyTo W) where
  module _ (unmarshal : MsgType → Bytes → Option Message) (k : Kernel W) (s : ℕ) (wire : Bytes)
      (frame : Frame) (h : HandlerEntry W) (req : Message) (w : W) where
    -- Where a before hook fails on a request that decodes, has a number and has a handler, the handler
    -- does not run: the final state is that of the hooks with one reply after it, an error frame for
    -- the session and sequence number of the request, with the code and text of a business error and
    -- with a fixed answer for any other.
    pub dispatch_refused :
        (e : GoError)
        → IsRequest unmarshal k wire frame h req
        → (execute_before k.hooks
            (with_msg_id (session_context s) frame.msg_id)
            (message req)
            w).error
          ≡ some e
        → let b =
            execute_before k.hooks (with_msg_id (session_context s) frame.msg_id) (message req) w in
          dispatch reply unmarshal k (session_context s) wire w
          ≡ (none, (reply s frame.seq id_error (error_frame e) b.state).1)
    unfolding send_error
    dispatch_refused e r x =
        rw (← error_message_lem e)
          (refused_lem reply unmarshal k (session_context s) wire frame h req w e r x)
