-- ===== src/Hooks.antt =====
-- internal/hooks/hooks.go: authentication and rate limiting before the handlers.
pub mod Authentication
pub mod RateLimit
use game_server_go.Base.{ℕ, Bool, true, false, Option, none, some, Result, ok, err, if◌then◌else◌}
use game_server_go.Base.Decimal.{format_int}
use game_server_go.Base.Int.{ℤ, pos, leb_ℤ}
use game_server_go.Base.Map.{Map}
use game_server_go.Base.Text.{Bytes, utf8}
use game_server_go.Kernel.{HandlerEntry, is_auth_free, msg_id_from}
use game_server_go.Pipeline.{Context, Payload, Before, BeforeHandler}
use game_server_go.Protocol.Errors.{
  GoError, biz, err_unauthorized, err_login_token_expired, err_too_frequent,
}
use game_server_go.Store.Repository.{SessionRepository, SessionData, Found, StoreError}

-- The player of the context's session; 0 without a session.
unfoldable pub context_uid : {W : Type 0} → (ℕ → W → ℤ) → Context → W → ℤ
context_uid uid_of ctx w = elim ctx.session [ none ↦ pos 0 | some s ↦ uid_of s w ]

module _ {W : Type 0} (uid_of : ℕ → W → ℤ) (handlers : Map ℕ (HandlerEntry W)) where
  pass : Context → Payload → W → Before W
  pass ctx value w = record { ctx = ctx; value = value; error = none; state = w }

  refuse : Context → Payload → ℤ → Bytes → W → Before W
  refuse ctx value code msg w = record {
    ctx = ctx;
    value = value;
    error = some (biz code msg);
    state = w;
  }

  -- A store that fails lets the request pass.
  check_session : Context → Payload → Found SessionData × W → Before W
  unfolding pass refuse
  check_session ctx value (err e, w) = pass ctx value w
  check_session ctx value (ok none, w) =
      refuse ctx value err_login_token_expired (utf8 "会话已过期，请重新登录") w
  check_session ctx value (ok (some stored), w) = pass ctx value w

  -- Auth
  unfoldable pub auth : SessionRepository W → BeforeHandler W
  unfolding check_session pass refuse context_uid
  auth sessions ctx value w =
      if is_auth_free handlers (msg_id_from ctx)
      then pass ctx value w
      else if leb_ℤ (context_uid uid_of ctx w) (pos 0)
      then refuse ctx value err_unauthorized (utf8 "请先登录") w
      else check_session ctx value (sessions.get_session (context_uid uid_of ctx w) w)

  check_rate : Context → Payload → Result StoreError Bool × W → Before W
  unfolding pass refuse
  check_rate ctx value (err e, w) = pass ctx value w
  check_rate ctx value (ok false, w) = refuse ctx value err_too_frequent (utf8 "请求过于频繁，请稍后再试") w
  check_rate ctx value (ok true, w) = pass ctx value w

  -- RateLimit. CheckRateLimit of the Redis store is a parameter: key, limit and window in seconds.
  unfoldable pub rate_limit :
      (Bytes → ℕ → ℕ → W → Result StoreError Bool × W) → ℕ → ℕ → BeforeHandler W
  unfolding check_rate pass context_uid
  rate_limit check limit window ctx value w =
      if is_auth_free handlers (msg_id_from ctx)
      then pass ctx value w
      else if leb_ℤ (context_uid uid_of ctx w) (pos 0)
      then pass ctx value w
      else check_rate ctx value (check (format_int (context_uid uid_of ctx w)) limit window w)
