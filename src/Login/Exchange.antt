-- ===== src/Login/Exchange.antt =====
-- internal/login/code_exchange.go, and how wechat.go classifies the errors of its API.
use game_server_go.Base.{
  ◌≡◌, Bool, false, true, not, ◌||◌, Option, none, some, Result, ok, err, if◌then◌else◌,
}
use game_server_go.Base.Int.{ℤ}
use game_server_go.Base.Text.{Bytes, utf8, cut_prefix, has_prefix, is_blank}

pub record LoginIdentity : Type 0 where
  pub open_id : Bytes

-- An error that wraps ErrInvalidLoginCode, one that wraps ErrWechatUpstreamResponse, or another.
pub data ExchangeError : Type 0 where
  invalid_login_code : Bytes → ExchangeError
  wechat_upstream : Bytes → ExchangeError
  other_failure : Bytes → ExchangeError

abbrev pub development_code_rejected : ExchangeError
development_code_rejected =
    invalid_login_code (utf8 "invalid login code: development login code rejected")

abbrev pub wechat_identity_missing : ExchangeError
wechat_identity_missing = wechat_upstream (utf8 "wechat upstream response invalid: openid missing")

-- What follows "dev:" in a development code.
rejected_identity : Option Bytes → Bool
rejected_identity none = true
rejected_identity (some identity) = is_blank identity

-- DevelopmentCodeExchanger.Exchange
unfoldable pub development_exchange : Bool → Bytes → Result ExchangeError LoginIdentity
unfolding rejected_identity
development_exchange enabled code =
    if not enabled || rejected_identity (cut_prefix (utf8 "dev:") code)
    then err development_code_rejected
    else ok (record { open_id = code })

pub record Code2SessionResult : Type 0 where
  pub open_id : Bytes
  pub session_key : Bytes
  pub union_id : Bytes
  pub err_code : ℤ
  pub err_msg : Bytes

-- The answer of Code2Session: the pointer may be nil beside a nil error.
abbrev pub Code2Session : Type 0
Code2Session = Result ExchangeError (Option Code2SessionResult)

unfoldable pub identity_of : Code2Session → Result ExchangeError LoginIdentity
identity_of (err e) = err e
identity_of (ok none) = err wechat_identity_missing
identity_of (ok (some result)) =
    if is_blank result.open_id
    then err wechat_identity_missing
    else ok (record { open_id = result.open_id })

ask_client : Option (Bytes → Code2Session) → Bytes → Result ExchangeError LoginIdentity
unfolding identity_of
ask_client none code = err (other_failure (utf8 "wechat client unavailable"))
ask_client (some code2_session) code = identity_of (code2_session code)

-- WechatCodeExchanger.Exchange: the client, which may be nil, calls the service of WeChat.
unfoldable pub wechat_exchange :
    Option (Bytes → Code2Session) → Bytes → Result ExchangeError LoginIdentity
unfolding ask_client
wechat_exchange client code =
    if has_prefix code (utf8 "dev:")
    then err development_code_rejected
    else if is_blank code
    then err (invalid_login_code (utf8 "invalid login code"))
    else ask_client client code

module _ (client : Option (Bytes → Code2Session)) (code : Bytes) where
  pub wechat_exchange_development :
      has_prefix code (utf8 "dev:") ≡ true
      → wechat_exchange client code ≡ err development_code_rejected
  unfolding wechat_exchange
  wechat_exchange_development d = rw d

  pub wechat_exchange_blank :
      has_prefix code (utf8 "dev:") ≡ false
      → is_blank code ≡ true
      → wechat_exchange client code ≡ err (invalid_login_code (utf8 "invalid login code"))
  unfolding wechat_exchange
  wechat_exchange_blank d b = rw (d, b)

-- A code that passes both tests is WeChat's to judge.
pub wechat_exchange_asks :
    (code2_session : Bytes → Code2Session) (code : Bytes)
    → has_prefix code (utf8 "dev:") ≡ false
    → is_blank code ≡ false
    → wechat_exchange (some code2_session) code ≡ identity_of (code2_session code)
unfolding wechat_exchange
wechat_exchange_asks code2_session code d b = rw (d, b)
