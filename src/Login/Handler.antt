-- ===== src/Login/Handler.antt =====
-- internal/login/handler.go: the answers of Login and Heartbeat, and what they do to the session of
-- the connection, which may be missing from the context.
pub mod Identity
use game_server_go.Base.{Bool, Option, none, some, Result, ok, err, if◌then◌else◌}
use game_server_go.Base.Int.{ℤ, pos, ltb_ℤ}
use game_server_go.Base.Text.{Bytes, utf8}
use game_server_go.Messages.Account.{LoginResp, HeartbeatReq, HeartbeatResp}
use game_server_go.Protocol.Errors.{
  GoError, biz, internal, err_internal, err_login_invalid_code, err_login_wechat_failed,
}
use game_server_go.Session.{Session, bind, set, text}
use game_server_go.Store.Repository.{PlayerRepository, SessionRepository}
use game_server_go.Login.Exchange.{
  ExchangeError, invalid_login_code, wechat_upstream, other_failure, LoginIdentity,
}
use game_server_go.Login.Service.{
  Cause, exchange_error, store_error, invalid_repository_result, token_error, LoginError,
  LoginResult, login, refresh_session,
}

-- SessionKeyNickname and SessionKeyToken
abbrev pub session_key_nickname : Bytes
session_key_nickname = utf8 "nickname"

abbrev pub session_key_token : Bytes
session_key_token = utf8 "token"

-- The switch of classifyLoginError on the error's chain.
classify_cause : Cause → GoError
classify_cause (exchange_error (invalid_login_code t)) = biz err_login_invalid_code (utf8 "登录凭证无效")
classify_cause (exchange_error (wechat_upstream t)) = biz err_login_wechat_failed (utf8 "微信登录服务失败")
classify_cause (exchange_error (other_failure t)) = biz err_login_wechat_failed (utf8 "微信登录服务失败")
classify_cause (store_error e) = biz err_internal (utf8 "登录失败")
classify_cause invalid_repository_result = biz err_internal (utf8 "登录失败")
classify_cause (token_error t) = biz err_internal (utf8 "登录失败")

-- classifyLoginError, as the business error that Login makes of it.
unfoldable pub classify_login_error : LoginError → GoError
unfolding classify_cause
classify_login_error e = classify_cause e.cause

heartbeat_reply :
    {W : Type 0}
    → HeartbeatReq
    → Result LoginError (Unit {0}) × W
    → Result GoError HeartbeatResp × W
heartbeat_reply req (err e, w) = (err (internal (utf8 "refresh session")), w)
heartbeat_reply req (ok u, w) = (ok (record { timestamp = req.timestamp }), w)

module _ {C : Type 0} where
  -- current.Bind and the two calls of current.Set.
  unfoldable pub identify : LoginResult → Session C → Session C
  identify r current =
      set session_key_token (text r.token)
        (set session_key_nickname (text r.nickname) (bind r.uid current))

  identify_current : LoginResult → Option (Session C) → Option (Session C)
  unfolding identify
  identify_current r none = none
  identify_current r (some current) = some (identify r current)

  login_reply :
      {W : Type 0}
      → Option (Session C)
      → Result LoginError LoginResult × W
      → Result GoError LoginResp × Option (Session C) × W
  unfolding identify_current
  login_reply current (err e, w) = (err (classify_login_error e), current, w)
  login_reply current (ok r, w) = (
    ok (record { uid = r.uid; nickname = r.nickname; token = r.token }),
    identify_current r current,
    w,
  )

  module _ {W : Type 0} (players : PlayerRepository W) (sessions : SessionRepository W) where
    -- Handler.Login; the exchanger and the token generator as for the service.
    unfoldable pub login_handler :
        Result ExchangeError LoginIdentity
        → Result Bytes Bytes
        → Option (Session C)
        → W
        → Result GoError LoginResp × Option (Session C) × W
    unfolding login_reply
    login_handler exchanged generated current w =
        login_reply current (login players sessions exchanged generated w)

    -- Handler.Heartbeat
    unfoldable pub heartbeat_handler :
        Option (Session C) → HeartbeatReq → W → Result GoError HeartbeatResp × W
    unfolding heartbeat_reply
    heartbeat_handler none req w = (ok (record { timestamp = req.timestamp }), w)
    heartbeat_handler (some current) req w =
        if ltb_ℤ (pos 0) current.uid
        then heartbeat_reply req (refresh_session players sessions current.uid w)
        else (ok (record { timestamp = req.timestamp }), w)
