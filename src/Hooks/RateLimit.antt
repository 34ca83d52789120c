-- ===== src/Hooks/RateLimit.antt =====
-- RateLimit of internal/hooks/hooks.go over the Redis store, as cmd/server/main.go puts them together.
use game_server_go.Base.{
  ℕ, suc, ◌*◌, ◌≡◌, refl, Bool, true, false, none, some, Result, ok, leb, ◌++◌, if◌then◌else◌,
}
use game_server_go.Base.Decimal.{format_int}
use game_server_go.Base.Int.{ℤ, pos, ◌<ℤ◌, leb_ℤ}
use game_server_go.Base.Map.{Map}
use game_server_go.Base.Text.{Bytes, utf8}
use game_server_go.Kernel.{HandlerEntry, is_auth_free, msg_id_from}
use game_server_go.Pipeline.{Context, Payload}
use game_server_go.Protocol.Errors.{biz, err_too_frequent}
use game_server_go.Store.Redis.{Commands, check_rate_limit, rate_limit_key_prefix}
use game_server_go.Store.Redis.RateLimit.{Counts, check_rate_limit_lem}
use game_server_go.Store.Repository.{StoreError}
use game_server_go.Hooks.{rate_limit, check_rate, context_uid}

-- CheckRateLimit of a store, for a window in seconds.
unfoldable pub redis_check :
    {W : Type 0} → Commands W → (ℤ → ℤ) → Bytes → ℕ → ℕ → W → Result StoreError Bool × W
redis_check c whole_seconds key limit window w =
    check_rate_limit c whole_seconds key (pos limit) (pos (window * 1000000000)) w

-- The key of a player's counter.
abbrev pub counter_key : ℤ → Bytes
counter_key uid = rate_limit_key_prefix ++ format_int uid

module _ {W : Type 0} (uid_of : ℕ → W → ℤ) (handlers : Map ℕ (HandlerEntry W)) where
  check_rate_lem :
      (ctx : Context) (value : Payload) (within : Bool) (a : Result StoreError Bool) (w : W)
      → a ≡ ok within
      → (check_rate uid_of handlers ctx value (a, w)).error
        ≡ (if within then none else some (biz err_too_frequent (utf8 "请求过于频繁，请稍后再试")))
  unfolding check_rate
  check_rate_lem ctx value true a w e = rw e refl
  check_rate_lem ctx value false a w e = rw e refl

-- A request of a player who is logged in, for a message that needs authentication, is refused as too
-- frequent exactly if the player's requests of the window, with this one, are more than the limit.
pub rate_limit-redis_check :
    {W : Type 0} (uid_of : ℕ → W → ℤ) (handlers : Map ℕ (HandlerEntry W)) (c : Commands W)
    (count : Bytes → W → ℕ)
    → Counts c count
    → (whole_seconds : ℤ → ℤ) (limit window : ℕ)
    → pos 0 <ℤ whole_seconds (pos (window * 1000000000))
    → (ctx : Context) (value : Payload) (w : W) → is_auth_free handlers (msg_id_from ctx) ≡ false
    → leb_ℤ (context_uid uid_of ctx w) (pos 0) ≡ false
    → (rate_limit uid_of handlers (redis_check c whole_seconds) limit window ctx value w).error ≡ (
        if leb (suc (count (counter_key (context_uid uid_of ctx w)) w)) limit
        then none
        else some (biz err_too_frequent (utf8 "请求过于频繁，请稍后再试")))
unfolding rate_limit redis_check
rate_limit-redis_check uid_of handlers c count laws whole_seconds limit window positive ctx value w
      guarded known =
    rw (guarded, known)
      (check_rate_lem uid_of handlers ctx value _ _ _
        (check_rate_limit_lem c count laws whole_seconds (format_int (context_uid uid_of ctx w))
          limit (pos (window * 1000000000)) w positive).0)
