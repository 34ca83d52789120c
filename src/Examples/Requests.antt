-- ===== src/Examples/Requests.antt =====
-- Requests from the frame to the reply.
use mathlib.Core.Path.{subst}
use game_server_go.Base.{
  ℕ, ◌≡◌, ◌≢◌, refl, true, Bool-cases, ◌⊎◌, inl, inr, [], ◌∷◌, none, some, ok, err, ◌↔◌,
}
use game_server_go.Base.Equality.{◌==◌, nat_eq}
use game_server_go.Base.Int.{pos, ◌<ℤ◌, leb_ℤ, int_laws}
use game_server_go.Base.Map.{get, put, delete}
use game_server_go.Base.Text.{utf8}
use game_server_go.Messages.{MsgType, same_type}
use game_server_go.Protocol.Codec.{Frame, CodecError, invalid_header, decode}
use game_server_go.Protocol.Errors.{biz, err_unauthorized}
use game_server_go.Protocol.Routes.{route_for}
use game_server_go.Pipeline.{message, execute_before, execute_after}
use game_server_go.Kernel.{
  HandlerEntry, typed, new_kernel, register, apply_options, with_msg_id, msg_id_from, is_auth_free,
}
use game_server_go.Kernel.Registry.{IsRouted, register-IsRouted}
use game_server_go.Kernel.Dispatch.{dispatch, session_context, send_error, undecodable, zero_seq}
use game_server_go.Kernel.Dispatch.Outcomes.{
  IsResponsive, IsAnswer, RepliesOnce, dispatch-RepliesOnce, dispatch_fatal,
}
use game_server_go.Kernel.Dispatch.Guards.{IsRequest, error_frame, dispatch_refused}
use game_server_go.Protocol.Ids.{id_error}
use game_server_go.Hooks.{auth, context_uid}
use game_server_go.Hooks.Authentication.{auth_passes_iff, dispatch_unauthenticated}
use game_server_go.Examples.Server.{
  World, reply, uid_of, stored_sessions, unmarshal_heartbeat, pong, heartbeat, handlers,
  open_kernel, guarded_kernel, wire_frame, heartbeat_frame, nobody, request,
}

only_entry :
    (P : HandlerEntry World → Type 0) (id : ℕ) (h : HandlerEntry World)
    → P heartbeat
    → get id open_kernel.handlers ≡ some h
    → P h
unfolding get
only_entry P id h p at = elim (Bool-cases (1003 == id)) [
  | inl here ↦
      let found : some heartbeat ≡ some h = rw here at at in
      let same : heartbeat ≡ h = cc in subst P same p
  | inr there ↦ absurd (let none_found : none ≡ some h = rw there at at in cc)
]

decoded : decode wire_frame ≡ ok heartbeat_frame
unfolding decode
decoded = refl

guarded_request :
    IsRequest unmarshal_heartbeat guarded_kernel wire_frame heartbeat_frame heartbeat request
unfolding get
guarded_request = record { decoded = decoded; numbered = λ e. cc; handled = refl; parsed = refl }

open_kernel-IsResponsive : IsResponsive reply (λ (w : World). w.log) open_kernel
unfolding execute_before execute_after
open_kernel-IsResponsive = record {
  recorded = λ s seq id m w. refl;
  before_quiet = λ ctx v w. refl;
  after_quiet = λ ctx v e w. refl;
  after_answers = λ ctx v e w answered. answered;
  handler_quiet = λ id h ctx m w at. only_entry (λ h. (h.fn ctx m w).1.log ≡ w.log) id h refl at;
  handler_answers = λ id h ctx m w at.
      only_entry (λ h. IsAnswer (h.fn ctx m w).0.response (h.fn ctx m w).0.error) id h tt at;
}

registered :
    register
      (new_kernel none)
      1003
      1004
      (typed MsgType.heartbeat_req MsgType.heartbeat_resp pong)
      []
    ≡ ok open_kernel
unfolding register get new_kernel route_for same_type put apply_options delete
registered = refl

new_kernel-IsRouted : IsRouted (new_kernel {W = World} none)
unfolding new_kernel get
new_kernel-IsRouted id e at = absurd cc

open_kernel-IsRouted : IsRouted open_kernel
open_kernel-IsRouted =
    register-IsRouted (new_kernel none) open_kernel 1003 1004
      (typed MsgType.heartbeat_req MsgType.heartbeat_resp pong) [] new_kernel-IsRouted tt registered

dispatch-RepliesOnce_example :
    let after =
      dispatch reply unmarshal_heartbeat open_kernel (session_context 3) wire_frame nobody in
    (after.0 ≡ none) × RepliesOnce reply (λ (w : World). w.log) 3 7 1004 nobody after.1
dispatch-RepliesOnce_example =
    dispatch-RepliesOnce reply (λ w. w.log) open_kernel unmarshal_heartbeat 3 wire_frame
      heartbeat_frame nobody open_kernel-IsResponsive open_kernel-IsRouted decoded (λ e. cc)

dispatch_fatal_example :
    ((dispatch reply unmarshal_heartbeat open_kernel (session_context 3) (1 ∷ []) nobody).1
      ≡ nobody)
    × (((e : CodecError) × (decode (1 ∷ []) ≡ err e) × (undecodable invalid_header ≡ undecodable e))
        ⊎ ((frame : Frame) × (decode (1 ∷ []) ≡ ok frame)
            × (frame.seq ≡ 0)
            × (undecodable invalid_header ≡ zero_seq)))
unfolding dispatch decode
dispatch_fatal_example =
    dispatch_fatal reply (λ w. w.log) open_kernel unmarshal_heartbeat (session_context 3) (1 ∷ [])
      nobody (undecodable invalid_header) refl

dispatch_refused_example :
    dispatch reply unmarshal_heartbeat guarded_kernel (session_context 3) wire_frame nobody
    ≡ (none, (reply 3 7 id_error (error_frame (biz err_unauthorized (utf8 "请先登录"))) nobody).1)
unfolding execute_before auth is_auth_free msg_id_from with_msg_id get context_uid leb_ℤ
dispatch_refused_example =
    dispatch_refused reply unmarshal_heartbeat guarded_kernel 3 wire_frame heartbeat_frame heartbeat
      request nobody (biz err_unauthorized (utf8 "请先登录")) guarded_request refl

dispatch_unauthenticated_example :
    dispatch reply unmarshal_heartbeat guarded_kernel (session_context 3) wire_frame nobody
    ≡ (none, send_error reply (some 3) 7 (biz err_unauthorized (utf8 "请先登录")) nobody)
dispatch_unauthenticated_example =
    dispatch_unauthenticated uid_of stored_sessions reply unmarshal_heartbeat guarded_kernel [] 3
      wire_frame heartbeat_frame heartbeat request nobody refl guarded_request refl (omega int_laws)

auth_passes_iff_example :
    ((auth uid_of handlers stored_sessions (session_context 3) (message request) nobody).error
      ≡ none)
    ↔ ((is_auth_free handlers (msg_id_from (session_context 3)) ≡ true)
        ⊎ (pos 0 <ℤ context_uid uid_of (session_context 3) nobody)
          × ((stored_sessions.get_session (context_uid uid_of (session_context 3) nobody) nobody).0
              ≢ ok none))
auth_passes_iff_example =
    auth_passes_iff uid_of handlers stored_sessions (session_context 3) (message request) nobody
