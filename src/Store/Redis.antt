-- ===== src/Store/Redis.antt =====
-- internal/store/redis.go: the methods of RedisStore over the commands of a Redis server with a state
-- `W`, which are the parameter `Commands`.
pub mod RateLimit
pub mod Sessions
use game_server_go.Base.{
  Bool, true, false, List, [], ◌∷◌, ◌++◌, Option, none, some, Result, ok, err, if◌then◌else◌,
}
use game_server_go.Base.Decimal.{format_int}
use game_server_go.Base.Equality.{◌==◌, int_eq, bytes_eq}
use game_server_go.Base.Float.{Float64, FloatOps}
use game_server_go.Base.Int.{ℤ, pos, ◌+ℤ◌, ltb_ℤ, wrap64}
use game_server_go.Base.Map.{Map, get}
use game_server_go.Base.Parse.{parse_int, parsed_value}
use game_server_go.Base.Text.{Bytes, utf8}
use game_server_go.Store.Repository.{SessionData, StoreError, Found}
use game_server_go.Store.MySql.{validate_and_close_on_failure}

-- The value of a field in HSET, which go-redis writes as text.
pub data Argument : Type 0 where
  integer : ℤ → Argument
  string : Bytes → Argument

-- redis.Z, for a member that is a string.
pub record Scored : Type 0 where
  pub score : Float64
  pub member : Bytes

-- A time to live is in nanoseconds for Expire and in seconds for EXPIRE in a script.
pub record Commands (W : Type 0) : Type 0 where
  pub ping : W → Option StoreError × W
  pub close : W → Option StoreError × W
  pub hset : Bytes → List (Bytes × Argument) → W → Option StoreError × W
  pub hgetall : Bytes → W → Result StoreError (Map Bytes Bytes) × W
  pub del : Bytes → W → Option StoreError × W
  pub expire : Bytes → ℤ → W → Option StoreError × W
  pub zadd : Bytes → Float64 → Bytes → W → Option StoreError × W
  pub zrevrange_with_scores : Bytes → ℤ → ℤ → W → Result StoreError (List Scored) × W
  pub zrevrank : Bytes → Bytes → W → Result StoreError ℤ × W
  pub script_incr : Bytes → W → Result StoreError ℤ × W
  pub script_expire : Bytes → ℤ → W → Option StoreError × W

-- sessionKeyPrefix, rankKeyPrefix and rateLimitKeyPrefix
abbrev pub session_key_prefix : Bytes
session_key_prefix = utf8 "session:"

abbrev pub rank_key_prefix : Bytes
rank_key_prefix = utf8 "rank:"

abbrev pub rate_limit_key_prefix : Bytes
rate_limit_key_prefix = utf8 "rate:"

abbrev pub session_key : ℤ → Bytes
session_key uid = session_key_prefix ++ format_int uid

-- getRankKey
unfoldable pub get_rank_key : ℤ → Bytes
get_rank_key rank_type = rank_key_prefix ++ format_int rank_type

-- The member "uid:nickname" of UpdateRank and GetPlayerRank.
unfoldable pub rank_member : ℤ → Bytes → Bytes
rank_member uid nickname = format_int uid ++ (b':' ∷ nickname)

abbrev pub two_hours : ℤ
two_hours = pos 7200000000000

abbrev pub session_fields : SessionData → List (Bytes × Argument)
session_fields d =
    (utf8 "uid", integer d.uid)
    ∷ (utf8 "nickname", string d.nickname)
    ∷ (utf8 "token", string d.token)
    ∷ []

-- result[field], which is empty for a missing field.
abbrev pub field_or_empty : Option Bytes → Bytes
field_or_empty none = []
field_or_empty (some v) = v

abbrev pub field : Bytes → Map Bytes Bytes → Bytes
field k m = field_or_empty (get k m)

abbrev pub read_session : Map Bytes Bytes → SessionData
read_session m = record {
  uid = parsed_value (parse_int (field (utf8 "uid") m));
  nickname = field (utf8 "nickname") m;
  token = field (utf8 "token") m;
}

-- No field at all is a session that is missing, and no error.
session_of : {W : Type 0} → Result StoreError (Map Bytes Bytes) × W → Found SessionData × W
session_of (err e, w) = (err e, w)
session_of (ok [], w) = (ok none, w)
session_of (ok (f ∷ m), w) = (ok (some (read_session (f ∷ m))), w)

-- The 1-based rank.
one_based : {W : Type 0} → Result StoreError ℤ × W → Result StoreError ℤ × W
one_based (err e, w) = (err e, w)
one_based (ok r, w) = (ok (wrap64 (r +ℤ pos 1)), w)

within : ℤ → ℤ → Bool
within limit count = if ltb_ℤ limit count then false else true

with_answer : {W : Type 0} → Bool → Option StoreError × W → Result StoreError Bool × W
with_answer answer (none, w) = (ok answer, w)
with_answer answer (some e, w) = (err e, w)

module _ {W : Type 0} (c : Commands W) where
  -- NewRedisStore after the client is made: the ping, and the close where it fails.
  unfoldable pub connect : W → Option StoreError × W
  unfolding validate_and_close_on_failure
  connect w = validate_and_close_on_failure c.ping c.close w

  expire_session : ℤ → Option StoreError × W → Option StoreError × W
  expire_session uid (some e, w) = (some e, w)
  expire_session uid (none, w) = c.expire (session_key uid) two_hours w

  unfoldable pub set_session : ℤ → SessionData → W → Option StoreError × W
  unfolding expire_session
  set_session uid d w = expire_session uid (c.hset (session_key uid) (session_fields d) w)

  unfoldable pub get_session : ℤ → W → Found SessionData × W
  unfolding session_of
  get_session uid w = session_of (c.hgetall (session_key uid) w)

  unfoldable pub del_session : ℤ → W → Option StoreError × W
  del_session uid w = c.del (session_key uid) w

  -- The score is the nearest float64.
  unfoldable pub update_rank : FloatOps → ℤ → ℤ → Bytes → ℤ → W → Option StoreError × W
  unfolding rank_member get_rank_key
  update_rank ops rank_type uid nickname score w =
      c.zadd (get_rank_key rank_type) (ops.of_int score) (rank_member uid nickname) w

  unfoldable pub get_rank : ℤ → ℤ → ℤ → W → Result StoreError (List Scored) × W
  unfolding get_rank_key
  get_rank rank_type start stop w = c.zrevrange_with_scores (get_rank_key rank_type) start stop w

  unfoldable pub get_player_rank : ℤ → ℤ → Bytes → W → Result StoreError ℤ × W
  unfolding one_based rank_member get_rank_key
  get_player_rank rank_type uid nickname w =
      one_based (c.zrevrank (get_rank_key rank_type) (rank_member uid nickname) w)

  -- After INCR in the script: the expiry with the first count, then the answer.
  counted : Bytes → ℤ → ℤ → Result StoreError ℤ × W → Result StoreError Bool × W
  unfolding within with_answer
  counted key limit seconds (err e, w) = (err e, w)
  counted key limit seconds (ok count, w) =
      let first = with_answer (within limit count) (c.script_expire key seconds w) in
      if count == pos 1 then first else (ok (within limit count), w)

  -- The Lua script, which the server runs as one step.
  unfoldable pub rate_script : Bytes → ℤ → ℤ → W → Result StoreError Bool × W
  unfolding counted
  rate_script key limit seconds w = counted key limit seconds (c.script_incr key w)

  -- CheckRateLimit; `whole_seconds` is int(d.Seconds()) of package time.
  unfoldable pub check_rate_limit : (ℤ → ℤ) → Bytes → ℤ → ℤ → W → Result StoreError Bool × W
  unfolding rate_script
  check_rate_limit whole_seconds key limit window w =
      rate_script (rate_limit_key_prefix ++ key) limit (whole_seconds window) w
