-- ===== src/Login/Service.antt =====
-- internal/login/service.go over any repositories of a state `W`.
pub mod InMemory
use game_server_go.Base.{
  ◌≡◌, Bool, true, false, Option, none, some, Result, ok, err, and_then, [], ◌++◌, if◌then◌else◌,
}
use game_server_go.Base.Int.{ℤ, pos}
use game_server_go.Base.Text.{Bytes, utf8}
use game_server_go.Base.Decimal.{format_int}
use game_server_go.Store.Repository.{
  Player, SessionData, StoreError, is_not_found, Found, PlayerRepository, SessionRepository,
}
use game_server_go.Login.Exchange.{LoginIdentity, ExchangeError}

-- LoginOperationStage
pub data Stage : Type 0 where
  unknown exchange_code lookup_player create_player update_nickname generate_token update_token
        load_session store_session :
      Stage

-- What an operation of a stage fails with.
pub data Cause : Type 0 where
  exchange_error : ExchangeError → Cause
  store_error : StoreError → Cause
  invalid_repository_result : Cause
  token_error : Bytes → Cause

-- loginOperationError
pub record LoginError : Type 0 where
  pub stage : Stage
  pub cause : Cause

-- The constants of LoginOperationStage, as they are logged.
stage_text : Stage → Bytes
stage_text unknown = utf8 "unknown"
stage_text exchange_code = utf8 "exchange_code"
stage_text lookup_player = utf8 "lookup_player"
stage_text create_player = utf8 "create_player"
stage_text update_nickname = utf8 "update_nickname"
stage_text generate_token = utf8 "generate_token"
stage_text update_token = utf8 "update_token"
stage_text load_session = utf8 "load_session"
stage_text store_session = utf8 "store_session"

-- Error and Unwrap of loginOperationError: the text names the stage and not the cause.
unfoldable pub login_error_text : LoginError → Bytes
unfolding stage_text
login_error_text e = utf8 "login operation " ++ (stage_text e.stage ++ utf8 " failed")

unfoldable pub login_error_unwrap : LoginError → Cause
login_error_unwrap e = e.cause

-- loginOperationStage, of an error in whose chain errors.As finds a loginOperationError or none.
unfoldable pub login_operation_stage : Option LoginError → Stage
login_operation_stage (some e) = e.stage
login_operation_stage none = unknown

pub record LoginResult : Type 0 where
  pub uid : ℤ
  pub nickname : Bytes
  pub token : Bytes

-- wrapLoginOperation, on each form of a call's result.
failed_at : Stage → Cause → LoginError
failed_at stage cause = record { stage = stage; cause = cause }

unfoldable pub wrap_result {ℓ} :
    {A : Type ℓ} {W : Type 0} → Stage → Result StoreError A × W → Result LoginError A × W
unfolding failed_at
wrap_result stage (ok a, w) = (ok a, w)
wrap_result stage (err e, w) = (err (failed_at stage (store_error e)), w)

unfoldable pub wrap_login_operation :
    {W : Type 0} → Stage → Option StoreError × W → Result LoginError (Unit {0}) × W
unfolding failed_at
wrap_login_operation stage (none, w) = (ok tt, w)
wrap_login_operation stage (some e, w) = (err (failed_at stage (store_error e)), w)

wrap_exchange : Result ExchangeError LoginIdentity → Result LoginError LoginIdentity
unfolding failed_at
wrap_exchange (ok identity) = ok identity
wrap_exchange (err e) = err (failed_at exchange_code (exchange_error e))

wrap_token : Result Bytes Bytes → Result LoginError Bytes
unfolding failed_at
wrap_token (ok token) = ok token
wrap_token (err e) = err (failed_at generate_token (token_error e))

-- &store.Player{OpenID: open_id}
abbrev pub fresh_player : Bytes → Player
fresh_player open_id = record {
  id = pos 0;
  open_id = open_id;
  nickname = [];
  avatar_url = [];
  token = [];
  best_score = pos 0;
  created_at = 0;
  updated_at = 0;
}

-- fmt.Sprintf("玩家%d", id)
unfoldable pub default_nickname : ℤ → Bytes
default_nickname id = utf8 "玩家" ++ format_int id

module _ {W : Type 0} (players : PlayerRepository W) (sessions : SessionRepository W) where
  -- The first login of an identity.
  register_player : Bytes → W → Result LoginError Player × W
  unfolding default_nickname wrap_result wrap_login_operation
  register_player open_id w =
      and_then (wrap_result create_player (players.create_player (some (fresh_player open_id)) w))
        λ created w1.
          let player = record created { nickname = default_nickname created.id } in
          and_then (wrap_login_operation update_nickname (players.update_player (some player) w1))
            λ done w2. (ok player, w2)

  find_or_register : Bytes → Found Player × W → Result LoginError Player × W
  unfolding register_player failed_at
  find_or_register open_id (ok (some player), w) = (ok player, w)
  find_or_register open_id (ok none, w) =
      (err (failed_at lookup_player invalid_repository_result), w)
  find_or_register open_id (err e, w) =
      if is_not_found e
      then register_player open_id w
      else (err (failed_at lookup_player (store_error e)), w)

  -- The token is stored with the player, then in the session.
  open_session : Player → Bytes → W → Result LoginError LoginResult × W
  unfolding wrap_login_operation
  open_session found token w =
      let player = record found { token = token } in
      and_then (wrap_login_operation update_token (players.update_player (some player) w))
        λ done w1.
          and_then
            (wrap_login_operation store_session (
              sessions.set_session player.id
                (some (record { uid = player.id; nickname = player.nickname; token = token })) w1))
            λ done w2.
              (ok (record { uid = player.id; nickname = player.nickname; token = token }), w2)

  login_player : Result Bytes Bytes → Player → W → Result LoginError LoginResult × W
  unfolding wrap_token open_session
  login_player generated player w =
      and_then (wrap_token generated, w) λ token w1. open_session player token w1

  -- Login: the answers of the exchanger and of the token generator are arguments, since both are
  -- asked at most once and neither sees the repositories.
  unfoldable pub login :
      Result ExchangeError LoginIdentity
      → Result Bytes Bytes
      → W
      → Result LoginError LoginResult × W
  unfolding wrap_exchange find_or_register login_player
  login exchanged generated w =
      and_then (wrap_exchange exchanged, w)
        λ identity w1.
          and_then
            (find_or_register identity.open_id (players.get_player_by_open_id identity.open_id w1))
            λ player w2. login_player generated player w2

  session_or_empty : ℤ → Option SessionData → SessionData
  session_or_empty uid none = record { uid = uid; nickname = []; token = [] }
  session_or_empty uid (some d) = d

  -- RefreshSession
  unfoldable pub refresh_session : ℤ → W → Result LoginError (Unit {0}) × W
  unfolding session_or_empty wrap_result wrap_login_operation
  refresh_session uid w = and_then (wrap_result load_session (sessions.get_session uid w)) λ d w1.
      wrap_login_operation store_session
        (sessions.set_session uid (some (session_or_empty uid d)) w1)
