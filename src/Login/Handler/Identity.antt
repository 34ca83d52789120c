-- ===== src/Login/Handler/Identity.antt =====
-- Which identity a session has after Login of internal/login/handler.go.
use game_server_go.Base.{
  ◌≡◌, ◌≢◌, refl, ◌∙◌, ◌⊎◌, inl, inr, false, some, Result, ok, err, arith, if◌then◌else◌,
}
use game_server_go.Base.Equality.{◌==◌, bytes_eq, bytes_beq, bytes_beq_iff, beq_refl}
use game_server_go.Base.Int.{ℤ}
use game_server_go.Base.Text.{Bytes, utf8}
use game_server_go.Messages.Account.{LoginResp}
use game_server_go.Session.{Session, bind, set, text, get_string}
use game_server_go.Session.Lifecycle.{get_string-set_text}
use game_server_go.Store.Repository.{PlayerRepository, SessionRepository}
use game_server_go.Login.Exchange.{ExchangeError, LoginIdentity}
use game_server_go.Login.Service.{LoginError, LoginResult, login}
use game_server_go.Login.Handler.{
  login_handler, login_reply, identify, identify_current, session_key_nickname, session_key_token,
  classify_login_error,
}

-- The session has the identity that the response tells the client, its strings under other keys and
-- its callbacks are as before.
pub record IsIdentified {C : Type 0} (before after : Session C) (resp : LoginResp) : Type 0 where
  pub bound : after.uid ≡ resp.uid
  pub nickname_set : get_string session_key_nickname after ≡ resp.nickname
  pub token_set : get_string session_key_token after ≡ resp.token
  pub others_kept :
      (key : Bytes)
      → key ≢ session_key_nickname
      → key ≢ session_key_token
      → get_string key after ≡ get_string key before
  pub callbacks_kept : after.on_close ≡ before.on_close

nickname_key_apart : (session_key_token == session_key_nickname) ≡ false
unfolding utf8 bytes_beq
nickname_key_apart = refl

module _ {C : Type 0} where
  bind_string :
      (key : Bytes) (uid : ℤ) (s : Session C) → get_string key (bind uid s) ≡ get_string key s
  unfolding get_string bind
  bind_string key uid s = refl

  identify_string :
      (key : Bytes) (r : LoginResult) (s : Session C)
      → get_string key (identify r s) ≡ (
          if session_key_token == key
          then r.token
          else if session_key_nickname == key
          then r.nickname
          else get_string key s)
  unfolding identify
  identify_string key r s = ground (
    arith,
    get_string-set_text session_key_token key r.token
        (set session_key_nickname (text r.nickname) (bind r.uid s)),
    get_string-set_text session_key_nickname key r.nickname (bind r.uid s),
    bind_string key r.uid s,
  )

  identify-IsIdentified :
      (r : LoginResult) (current : Session C)
      → IsIdentified current
          (identify r current)
          (record { uid = r.uid; nickname = r.nickname; token = r.token })
  unfolding identify bind set
  identify-IsIdentified r current = record {
    bound = refl;
    nickname_set =
        identify_string session_key_nickname r current
        ∙ rw (nickname_key_apart, beq_refl session_key_nickname) refl;
    token_set = identify_string session_key_token r current ∙ rw (beq_refl session_key_token) refl;
    others_kept = λ key k1 k2.
        identify_string key r current
        ∙ ground
            (arith, bytes_beq_iff session_key_nickname key, bytes_beq_iff session_key_token key);
    callbacks_kept = refl;
  }

  module _ {W : Type 0} (players : PlayerRepository W) (sessions : SessionRepository W) where
    reply_cases :
        (current : Session C) (out : Result LoginError LoginResult × W)
        → ((resp : LoginResp) × (after : Session C) × ((login_reply (some current) out).0 ≡ ok resp)
            × ((login_reply (some current) out).1 ≡ some after)
            × IsIdentified current after resp)
          ⊎ (e : LoginError) × (out.0 ≡ err e)
            × ((login_reply (some current) out).0 ≡ err (classify_login_error e))
            × ((login_reply (some current) out).1 ≡ some current)
    unfolding login_reply identify_current
    reply_cases current (ok r, w) =
        inl (_, identify r current, refl, refl, identify-IsIdentified r current)
    reply_cases current (err e, w) = inr (e, refl, refl, refl)

    -- A login on a connection's session answers either with a response, and then the session has the
    -- identity of that response and nothing else of it changed, or with the service's error as it is
    -- classified, and then the session is unchanged.
    pub login_handler-IsIdentified :
        (exchanged : Result ExchangeError LoginIdentity) (generated : Result Bytes Bytes)
        (current : Session C) (w : W)
        → ((resp : LoginResp) × (after : Session C) × ((login_handler players sessions exchanged
                generated
                (some current)
                w).0
              ≡ ok resp)
            × ((login_handler players sessions exchanged generated (some current) w).1 ≡ some after)
            × IsIdentified current after resp)
          ⊎ (e : LoginError) × ((login players sessions exchanged generated w).0 ≡ err e)
            × ((login_handler players sessions exchanged generated (some current) w).0
                ≡ err (classify_login_error e))
            × ((login_handler players sessions exchanged generated (some current) w).1
                ≡ some current)
    unfolding login_handler
    login_handler-IsIdentified exchanged generated current w =
        reply_cases current (login players sessions exchanged generated w)
