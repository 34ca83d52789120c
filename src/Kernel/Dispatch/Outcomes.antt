-- ===== src/Kernel/Dispatch/Outcomes.antt =====
-- How often, to whom and under which identifiers a dispatch of internal/kernel/kernel.go replies.
use game_server_go.Base.{
  ℕ, ◌+◌, ◌≡◌, ◌≢◌, refl, ap, ◌∙◌, ◌⊎◌, inl, inr, Bool-cases, Option-cases, Result-cases, List, [],
  ◌∷◌, ◌++◌, Option, none, some, ok, err, arith, ◌==◌, ==_iff,
}
use game_server_go.Base.Equality.{nat_eq}
use game_server_go.Base.Map.{get}
use game_server_go.Base.Text.{Bytes, utf8}
use game_server_go.Messages.{Message, MsgType}
use game_server_go.Protocol.Codec.{CodecError, Frame, decode}
use game_server_go.Protocol.Errors.{GoError, biz, err_internal, err_invalid_param}
use game_server_go.Protocol.Ids.{id_error}
use game_server_go.Pipeline.{
  Context, Payload, message, opaque, execute_before, execute_after, Before,
}
use game_server_go.Kernel.{Kernel, HandlerEntry, with_msg_id}
use game_server_go.Kernel.Registry.{IsRouted, IsRouted-pairs}
use game_server_go.Kernel.Dispatch.{
  session_context, Fatal, undecodable, zero_seq, ReplyTo, send_error, finish, call_handler,
  after_before, as_payload, with_request, with_entry, with_frame, dispatch, error_message,
}

-- One reply: session, sequence number, message identifier and payload.
abbrev pub Sent : Type 0
Sent = ℕ × ℕ × ℕ × Message

-- A response or an error is there.
abbrev pub IsAnswer {ℓ} : {A : Type ℓ} → Option A → Option GoError → Type 0
IsAnswer none none = ⊥
IsAnswer _ _ = Unit

module _ {W : Type 0} (reply : ReplyTo W) (sent : W → List Sent) where
  -- A reply is recorded once, and neither hooks nor handlers reply by themselves; every handler
  -- returns a response or an error, and the after hooks do not swallow it.
  pub record IsResponsive (k : Kernel W) : Type 0 where
    pub recorded :
        (s seq id : ℕ) (m : Message) (w : W)
        → sent (reply s seq id m w).1 ≡ sent w ++ ((s, seq, id, m) ∷ [])
    pub before_quiet :
        (ctx : Context) (v : Payload) (w : W) → sent (execute_before k.hooks ctx v w).state ≡ sent w
    pub after_quiet :
        (ctx : Context) (v : Option Payload) (e : Option GoError) (w : W)
        → sent (execute_after k.hooks ctx v e w).state ≡ sent w
    pub after_answers :
        (ctx : Context) (v : Option Payload) (e : Option GoError) (w : W)
        → IsAnswer v e
        → let a = execute_after k.hooks ctx v e w in IsAnswer a.value a.error
    pub handler_quiet :
        (id : ℕ) (h : HandlerEntry W) (ctx : Context) (m : Message) (w : W)
        → get id k.handlers ≡ some h
        → sent (h.fn ctx m w).1 ≡ sent w
    pub handler_answers :
        (id : ℕ) (h : HandlerEntry W) (ctx : Context) (m : Message) (w : W)
        → get id k.handlers ≡ some h
        → IsAnswer (h.fn ctx m w).0.response (h.fn ctx m w).0.error

  -- Between two states exactly one reply was sent: to session `s`, with `seq`, and with the error
  -- identifier or `id`.
  abbrev pub RepliesOnce : ℕ → ℕ → ℕ → W → W → Type 0
  RepliesOnce s seq id w w' =
      (i : ℕ) × (m : Message) × (sent w' ≡ sent w ++ ((s, seq, i, m) ∷ []))
      × ((i ≡ id_error) ⊎ (i ≡ id))

  module _ (k : Kernel W) (r : IsResponsive k) where
    send_error-RepliesOnce :
        (s seq id : ℕ) (e : GoError) (w : W)
        → RepliesOnce s seq id w (send_error reply (some s) seq e w)
    unfolding send_error
    send_error-RepliesOnce s seq id e w =
        (id_error, error_message e, r.recorded s seq id_error _ w, inl refl)

    finish-RepliesOnce :
        (s seq : ℕ) (h : HandlerEntry W) (v : Option Payload) (e : Option GoError) (w : W)
        → IsAnswer v e
        → RepliesOnce s seq h.resp_id w (finish reply (some s) seq h v e w)
    unfolding finish
    finish-RepliesOnce s seq h none none w a = absurd a
    finish-RepliesOnce s seq h v (some e) w a = send_error-RepliesOnce s seq h.resp_id e w
    finish-RepliesOnce s seq h (some (opaque n)) none w a =
        send_error-RepliesOnce s seq h.resp_id (biz err_internal (utf8 "invalid handler response"))
          w
    finish-RepliesOnce s seq h (some (message m)) none w a =
        (h.resp_id, m, r.recorded s seq h.resp_id m w, inr refl)

    RepliesOnce-from :
        (s seq id : ℕ) (w w1 w' : W)
        → sent w1 ≡ sent w
        → RepliesOnce s seq id w1 w'
        → RepliesOnce s seq id w w'
    RepliesOnce-from s seq id w w1 w' quiet (i, m, e, at) =
        (i, m, e ∙ ap (λ l. l ++ ((s, seq, i, m) ∷ [])) quiet, at)

    IsAnswer-as_payload :
        (v : Option Message) (e : Option GoError) → IsAnswer v e → IsAnswer (as_payload v) e
    unfolding as_payload
    IsAnswer-as_payload none none a = a
    IsAnswer-as_payload none (some e) a = tt
    IsAnswer-as_payload (some m) e a = tt

    call_handler-RepliesOnce :
        (s seq id : ℕ) (h : HandlerEntry W) (req : Message) (b : Before W)
        → get id k.handlers ≡ some h
        → RepliesOnce s seq h.resp_id b.state (call_handler reply k (some s) seq h req b)
    unfolding call_handler
    call_handler-RepliesOnce s seq id h req b at =
        let (result, w1) = h.fn b.ctx req b.state in
        let v = as_payload result.response in
        let a = execute_after k.hooks b.ctx v result.error w1 in
        let there = r.after_answers b.ctx v result.error w1 (
          IsAnswer-as_payload result.response result.error
            (r.handler_answers id h b.ctx req b.state at)) in
        RepliesOnce-from s seq h.resp_id b.state a.state _
          (r.after_quiet b.ctx v result.error w1 ∙ r.handler_quiet id h b.ctx req b.state at)
          (finish-RepliesOnce s seq h a.value a.error a.state there)

    after_before-RepliesOnce :
        (s seq id : ℕ) (h : HandlerEntry W) (req : Message) (b : Before W)
        → get id k.handlers ≡ some h
        → RepliesOnce s seq h.resp_id b.state (after_before reply k (some s) seq h req b)
    unfolding after_before
    after_before-RepliesOnce s seq id h req b at = elim (Option-cases b.error) [
      | inl e ↦ rw (e, after_before) (call_handler-RepliesOnce s seq id h req b at)
      | inr (x, e) ↦ rw (e, after_before) (finish-RepliesOnce s seq h none (some x) b.state tt)
    ]

    with_request-RepliesOnce :
        (s : ℕ) (frame : Frame) (h : HandlerEntry W) (m : Option Message) (w : W)
        → get frame.msg_id k.handlers ≡ some h
        → RepliesOnce s frame.seq h.resp_id w (with_request reply k (session_context s) frame h m w)
    unfolding with_request
    with_request-RepliesOnce s frame h none w at =
        send_error-RepliesOnce s frame.seq h.resp_id
          (biz err_invalid_param (utf8 "invalid request payload")) w
    with_request-RepliesOnce s frame h (some req) w at =
        let ctx = with_msg_id (session_context s) frame.msg_id in
        let b = execute_before k.hooks ctx (message req) w in
        RepliesOnce-from s frame.seq h.resp_id w b.state _ (r.before_quiet ctx (message req) w)
          (after_before-RepliesOnce s frame.seq frame.msg_id h req b at)

    with_entry-RepliesOnce :
        (unmarshal : MsgType → Bytes → Option Message) (s : ℕ) (frame : Frame) (w : W)
        → IsRouted k
        → RepliesOnce s frame.seq
            (frame.msg_id + 1)
            w
            (with_entry reply unmarshal k (session_context s) frame (get frame.msg_id k.handlers) w)
    unfolding with_entry
    with_entry-RepliesOnce unmarshal s frame w routed =
        elim (Option-cases (get frame.msg_id k.handlers)) [
          | inl e ↦
              rw (e, with_entry)
                (send_error-RepliesOnce s frame.seq (frame.msg_id + 1)
                  (biz err_invalid_param (utf8 "unsupported message type")) w)
          | inr (h, e) ↦
              rw (e, with_entry, ← IsRouted-pairs k frame.msg_id h routed e)
                (with_request-RepliesOnce s frame h (unmarshal h.req_type frame.body) w e)
        ]

  -- A frame that decodes and has a sequence number gets exactly one reply, whatever goes wrong behind
  -- it: to its own session, with its own sequence number, as an error or under the identifier that
  -- follows the request's. This needs a routed kernel whose hooks and handlers leave replying to the
  -- kernel and answer something.
  pub dispatch-RepliesOnce :
      (k : Kernel W) (unmarshal : MsgType → Bytes → Option Message) (s : ℕ) (wire : Bytes)
      (frame : Frame) (w : W)
      → IsResponsive k
      → IsRouted k
      → decode wire ≡ ok frame
      → frame.seq ≢ 0
      → let after = dispatch reply unmarshal k (session_context s) wire w in
        (after.0 ≡ none) × RepliesOnce s frame.seq (frame.msg_id + 1) w after.1
  unfolding dispatch with_frame
  dispatch-RepliesOnce k unmarshal s wire frame w r routed decoded numbered =
      elim (Bool-cases (frame.seq == 0)) [
        | inl zeroed ↦ absurd (numbered ((==_iff frame.seq 0).0 zeroed))
        | inr fine ↦
            rw (decoded, with_frame, fine)
              (refl, with_entry-RepliesOnce k r unmarshal s frame w routed)
      ]

  -- A frame is fatal only if it does not decode, or decodes to sequence number zero, and the error
  -- says which; then nothing has been touched: no hook or handler ran and nothing was sent.
  pub dispatch_fatal :
      (k : Kernel W) (unmarshal : MsgType → Bytes → Option Message) (ctx : Context) (wire : Bytes)
      (w : W) (f : Fatal)
      → (dispatch reply unmarshal k ctx wire w).0 ≡ some f
      → ((dispatch reply unmarshal k ctx wire w).1 ≡ w)
        × (((e : CodecError) × (decode wire ≡ err e) × (f ≡ undecodable e))
            ⊎ ((frame : Frame) × (decode wire ≡ ok frame) × (frame.seq ≡ 0) × (f ≡ zero_seq)))
  unfolding dispatch with_frame
  dispatch_fatal k unmarshal ctx wire w f h = elim (Result-cases (decode wire)) [
    | inr (e, x) ↦ (ground arith, inl (e, x, ground arith))
    | inl (frame, x) ↦ (ground arith, inr (frame, x, ground arith, ground arith))
  ]
