-- ===== src/Hooks/Authentication.antt =====
-- Who gets past the hooks of internal/hooks/hooks.go, alone and in front of a dispatch.
use game_server_go.Base.{
  ℕ, ◌≡◌, ◌≢◌, refl, ap, ◌∙◌, ◌↔◌, ◌⊎◌, inl, inr, true, false, Bool-cases, List, ◌∷◌, Option, none,
  some, ok, err, arith,
}
use game_server_go.Base.Equality.{nat_eq}
use game_server_go.Base.Int.{ℤ, pos, ◌≤ℤ◌, ◌<ℤ◌, leb_ℤ, leb_ℤ_iff, leb_ℤ_false}
use game_server_go.Base.Map.{Map, get}
use game_server_go.Base.Text.{Bytes, utf8}
use game_server_go.Hooks.{auth, context_uid, check_session}
use game_server_go.Kernel.{Kernel, HandlerEntry, is_auth_free, msg_id_from, with_msg_id}
use game_server_go.Kernel.Dispatch.{ReplyTo, dispatch, send_error, session_context}
use game_server_go.Kernel.Dispatch.Guards.{IsRequest, refused_lem}
use game_server_go.Messages.{Message, MsgType}
use game_server_go.Pipeline.{Context, Payload, message, Before, BeforeHandler}
use game_server_go.Pipeline.Chain.{execute_before_first}
use game_server_go.Protocol.Codec.{Frame}
use game_server_go.Protocol.Errors.{biz, err_unauthorized}
use game_server_go.Store.Repository.{SessionRepository, SessionData, Found}

module _ {W : Type 0} (uid_of : ℕ → W → ℤ) (handlers : Map ℕ (HandlerEntry W))
    (sessions : SessionRepository W) where
  check_session_iff :
      (ctx : Context) (v : Payload) (r : Found SessionData) (w : W)
      → ((check_session uid_of handlers ctx v (r, w)).error ≡ none) ↔ (r ≢ ok none)
  unfolding check_session
  check_session_iff ctx v (err e) w = (λ h x. cc, λ h. refl)
  check_session_iff ctx v (ok none) w = (λ h. cc, λ h. absurd (h refl))
  check_session_iff ctx v (ok (some d)) w = (λ h x. cc, λ h. refl)

  -- Authentication passes a request exactly if its message needs no authentication, or its session
  -- has a player with a session in the store, or the store fails to say.
  pub auth_passes_iff :
      (ctx : Context) (v : Payload) (w : W)
      → ((auth uid_of handlers sessions ctx v w).error ≡ none) ↔ (
          (is_auth_free handlers (msg_id_from ctx) ≡ true)
          ⊎ (pos 0 <ℤ context_uid uid_of ctx w)
            × ((sessions.get_session (context_uid uid_of ctx w) w).0 ≢ ok none))
  unfolding auth check_session
  auth_passes_iff ctx v w =
      let uid = context_uid uid_of ctx w in
      let asked =
        check_session_iff ctx v (sessions.get_session uid w).0 (sessions.get_session uid w).1 in
      elim (Bool-cases (is_auth_free handlers (msg_id_from ctx))) [
        | inl free ↦ rw free (λ h. inl refl, λ h. refl)
        | inr bound ↦ elim (Bool-cases (leb_ℤ uid (pos 0))) [
          | inl low ↦
              rw (bound, low)
                (
                  λ h. cc,
                  elim [
                    | inl x ↦ cc
                    | inr (p, q) ↦ absurd (omega (arith, (leb_ℤ_iff uid (pos 0)).0 low))
                  ],
                )
          | inr high ↦
              rw (bound, high)
                (
                  λ h. inr (leb_ℤ_false uid (pos 0) high, asked.0 h),
                  elim [ inl x ↦ cc | inr (p, q) ↦ asked.1 q ],
                )
        ]
      ]

module _ {W : Type 0} (uid_of : ℕ → W → ℤ) (sessions : SessionRepository W) where
  auth_refuses :
      (handlers : Map ℕ (HandlerEntry W)) (ctx : Context) (v : Payload) (w : W)
      → is_auth_free handlers (msg_id_from ctx) ≡ false
      → context_uid uid_of ctx w ≤ℤ pos 0
      → auth uid_of handlers sessions ctx v w ≡ record {
        ctx = ctx;
        value = v;
        error = some (biz err_unauthorized (utf8 "请先登录"));
        state = w;
      }
  unfolding auth
  auth_refuses handlers ctx v w guarded low =
      rw (guarded, (leb_ℤ_iff (context_uid uid_of ctx w) (pos 0)).1 low)

  guarded_entry :
      (handlers : Map ℕ (HandlerEntry W)) (s id : ℕ) (h : HandlerEntry W)
      → get id handlers ≡ some h
      → h.auth_free ≡ false
      → is_auth_free handlers (msg_id_from (with_msg_id (session_context s) id)) ≡ false
  unfolding is_auth_free msg_id_from with_msg_id
  guarded_entry handlers s id h at guarded = rw at guarded

  -- A kernel whose first hook authenticates refuses a request of a player who is not logged in, unless
  -- its message needs no authentication: the answer is the error "not authorized" for that frame, and
  -- besides sending it nothing has happened; neither a later hook nor the handler ran.
  pub dispatch_unauthenticated :
      (reply : ReplyTo W) (unmarshal : MsgType → Bytes → Option Message) (k : Kernel W)
      (rest : List (BeforeHandler W)) (s : ℕ) (wire : Bytes) (frame : Frame) (h : HandlerEntry W)
      (req : Message) (w : W)
      → k.hooks.before ≡ auth uid_of k.handlers sessions ∷ rest
      → IsRequest unmarshal k wire frame h req
      → h.auth_free ≡ false
      → uid_of s w ≤ℤ pos 0
      → dispatch reply unmarshal k (session_context s) wire w
        ≡ (none, send_error reply (some s) frame.seq (biz err_unauthorized (utf8 "请先登录")) w)
  unfolding context_uid with_msg_id
  dispatch_unauthenticated reply unmarshal k rest s wire frame h req w first r guarded low =
      let ctx = with_msg_id (session_context s) frame.msg_id in
      let refused =
        auth_refuses k.handlers ctx (message req) w
          (guarded_entry k.handlers s frame.msg_id h r.handled guarded) low in
      let e = ap (λ (b : Before W). b.error) refused in
      let chain =
        execute_before_first k.hooks (auth uid_of k.handlers sessions) rest ctx (message req) w _
          first e
        ∙ refused in
      refused_lem reply unmarshal k (session_context s) wire frame h req w _ r
        (ap (λ (b : Before W). b.error) chain)
      ∙ rw chain
