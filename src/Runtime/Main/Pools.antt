-- ===== src/Runtime/Main/Pools.antt =====
-- The pools of connections that main of cmd/server/main.go opens and closes.
use game_server_go.Base.{
  ℕ, ◌+◌, ◌-◌, ◌≡◌, refl, ◌∙◌, ◌⊎◌, inl, inr, Bool, arith, Option, none, some, Result, ok, err,
}
use game_server_go.Base.Int.{ℤ}
use game_server_go.Base.Text.{Bytes}
use game_server_go.Config.{Settings, MySqlConfig, RedisConfig, redis_addr}
use game_server_go.Kernel.{Handler}
use game_server_go.Store.MySql.{validate_and_close_on_failure, close_after}
use game_server_go.Store.Opening.{
  MySqlDriver, RedisDriver, OpenError, redis_connection, opened, new_mysql_store, close_mysql_store,
  new_redis_store, close_redis_store,
}
use game_server_go.Store.Opening.Pools.{
  PoolLaws, Leaves, new_mysql_store-Leaves, close_mysql_store_lem,
}
use game_server_go.Store.Repository.{SessionRepository, StoreError}
use game_server_go.Runtime.Closing.{runtime_close, close_runtime, close_each, close_unless}
use game_server_go.Runtime.Start.{RuntimeError, Runtime, Opened, close_quietly, new_runtime}
use game_server_go.Runtime.Start.Outcomes.{
  IsStarted, no_payment, develops, no_mysql, no_redis, no_redis_nor_closer, serves,
  new_runtime-IsStarted,
}
use game_server_go.Runtime.Main.{with_close, open_mysql_store, open_redis_store, setting_of}

-- The same of the client of Redis, which has its pool from when it is made.
pub record ClientLaws {W : Type 0} (d : RedisDriver W) (pools : W → ℕ) : Type 0 where
  pub makes :
      (addr password : Bytes) (db : ℤ) (w : W)
      → pools (d.new_client addr password db w) ≡ pools w + 1
  pub pings : (w : W) → pools (d.ping_server w).1 ≡ pools w
  pub shuts : (w : W) → pools (d.close_client w).1 ≡ pools w - 1

-- Both drivers over one world, where db.DB gives the handle of a database that was opened.
pub record Drivers (W : Type 0) : Type 0 where
  pub mysql : MySqlDriver W
  pub redis : RedisDriver W
  pub pools : W → ℕ
  pub mysql_laws : PoolLaws mysql pools
  pub redis_laws : ClientLaws redis pools
  pub has_handle : (w : W) → (mysql.sql_db w).0 ≡ none

module _ {W : Type 0} (d : Drivers W) where
  -- A store is open, with this close function and one pool more than `n`; or there is an error and
  -- none more.
  abbrev Opens : (W → Option Bytes × W) → ℕ → Opened W → Type 0
  Opens close n r =
      ((w1 : W) × (r ≡ (ok (some close), w1)) × (d.pools w1 ≡ n + 1))
      ⊎ ((e : Bytes) × (w1 : W) × (r ≡ (err e, w1)) × (d.pools w1 ≡ n))

  Leaves-Opens :
      (close : W → Option Bytes × W) (n : ℕ) (o : Option OpenError × W)
      → Leaves d.mysql d.pools d.mysql_laws n o
      → Opens close n (with_close close o)
  unfolding with_close
  Leaves-Opens close n (none, w) (inl (made, k)) = inl (w, refl, k)
  Leaves-Opens close n (none, w) (inr (inl (e, failed, at, k))) = absurd cc
  Leaves-Opens close n (none, w) (inr (inr (e, inl failed, k))) = absurd cc
  Leaves-Opens close n (none, w) (inr (inr (e, inr failed, k))) = absurd cc
  Leaves-Opens close n (some x, w) (inl (made, k)) = absurd cc
  Leaves-Opens close n (some x, w) (inr (inl (e, failed, (v, broke), k))) =
      let held = d.has_handle v in absurd cc
  Leaves-Opens close n (some x, w) (inr (inr (e, failed, k))) = inr (_, w, refl, k)

  open_mysql_store-Opens :
      (cfg : MySqlConfig) (w : W)
      → Opens (close_mysql_store d.mysql) (d.pools w) (open_mysql_store d.mysql cfg w)
  unfolding open_mysql_store
  open_mysql_store-Opens cfg w =
      Leaves-Opens (close_mysql_store d.mysql) (d.pools w) (new_mysql_store d.mysql cfg w)
        (new_mysql_store-Leaves d.mysql d.pools d.mysql_laws cfg w)

  pinged-Opens :
      (n : ℕ) (o : Option Bytes × W)
      → d.pools o.1 ≡ n + 1
      → Opens (close_redis_store d.redis) n (
          with_close
            (close_redis_store d.redis)
            (opened redis_connection (close_after d.redis.close_client o)))
  unfolding with_close opened close_after
  pinged-Opens n (none, w) k = inl (w, refl, k)
  pinged-Opens n (some e, w) k = inr (_, _, refl, omega (arith, d.redis_laws.shuts w, k))

  open_redis_store-Opens :
      (cfg : RedisConfig) (w : W)
      → Opens (close_redis_store d.redis) (d.pools w) (open_redis_store d.redis cfg w)
  unfolding open_redis_store new_redis_store validate_and_close_on_failure
  open_redis_store-Opens cfg w =
      let client = d.redis.new_client (redis_addr cfg) cfg.password cfg.db w in
      pinged-Opens (d.pools w) (d.redis.ping_server client)
        (d.redis_laws.pings client ∙ d.redis_laws.makes (redis_addr cfg) cfg.password cfg.db w)

  Opens-err :
      {close : W → Option Bytes × W} {n : ℕ} {r : Opened W} {e : Bytes} {w : W}
      → Opens close n r
      → r ≡ (err e, w)
      → d.pools w ≡ n
  Opens-err (inl (w1, same, k)) at = absurd cc
  Opens-err (inr (e1, w1, same, k)) at = cc

  Opens-ok :
      {close : W → Option Bytes × W} {n : ℕ} {r : Opened W} {c : Option (W → Option Bytes × W)}
      {w : W}
      → Opens close n r
      → r ≡ (ok c, w)
      → (c ≡ some close) × (d.pools w ≡ n + 1)
  Opens-ok (inl (w1, same, k)) at = (cc, cc)
  Opens-ok (inr (e1, w1, same, k)) at = absurd cc

  closed_pools : (w : W) → d.pools (close_mysql_store d.mysql w).1 ≡ d.pools w - 1
  closed_pools w = close_mysql_store_lem d.mysql d.pools d.mysql_laws w (d.has_handle w)

  -- Where starting fails no pool is left; where it succeeds, closing the runtime leaves none.
  abbrev pub Accounts : W → Result RuntimeError (Runtime W) × W → Type 0
  Accounts w (err e, w1) = d.pools w1 ≡ d.pools w
  Accounts w (ok rt, w1) =
      (w2 : W)
      → d.pools w2 ≡ d.pools w1
      → d.pools (close_runtime rt.closers (runtime_close Bytes) w2).2 ≡ d.pools w

  quietly_pools :
      (c : Option (W → Option Bytes × W)) (w : W)
      → c ≡ some (close_mysql_store d.mysql)
      → d.pools (close_quietly c w) ≡ d.pools w - 1
  unfolding close_quietly
  quietly_pools c w e = rw e (closed_pools w)

  module _ (fn : ℕ → Handler W) (uid_of : ℕ → W → ℤ) (sessions : SessionRepository W)
      (check : Bytes → ℕ → ℕ → W → Result StoreError Bool × W) (cfg : Settings) where
    IsStarted-Accounts :
        (w : W) (r : Result RuntimeError (Runtime W) × W)
        → IsStarted fn uid_of sessions check (setting_of d.mysql d.redis cfg) w r
        → Accounts w r
    unfolding setting_of close_runtime close_unless close_each runtime_close close_redis_store
        close_quietly
    IsStarted-Accounts w r (no_payment e) = refl
    IsStarted-Accounts w r (develops unpaid mode) = λ w2 same. same
    IsStarted-Accounts w r (no_mysql unpaid mode at) =
        Opens-err (open_mysql_store-Opens cfg.mysql w) at
    IsStarted-Accounts w r
          (no_redis {w1 = w1} {w2 = w2} close_mysql unpaid mode at_mysql at_redis) =
        let (closes, k) = Opens-ok (open_mysql_store-Opens cfg.mysql w) at_mysql in
        let left = Opens-err (open_redis_store-Opens cfg.redis w1) at_redis in
        let closed : d.pools (close_mysql w2).1 ≡ d.pools w2 - 1 =
          quietly_pools (some close_mysql) w2 closes in
        omega arith
    IsStarted-Accounts w r (no_redis_nor_closer {w1 = w1} {w2 = w2} unpaid mode at_mysql at_redis) =
        let closes = (Opens-ok (open_mysql_store-Opens cfg.mysql w) at_mysql).0 in absurd cc
    IsStarted-Accounts w r (serves {w1 = w1} unpaid mode at_mysql at_redis) = λ w3 same.
        let (closes_mysql, k) = Opens-ok (open_mysql_store-Opens cfg.mysql w) at_mysql in
        let (closes_redis, l) = Opens-ok (open_redis_store-Opens cfg.redis w1) at_redis in
        rw (closes_redis, closes_mysql)
          (omega (arith, closed_pools (d.redis.close_client w3).1, d.redis_laws.shuts w3))

    pub new_runtime-Accounts :
        (w : W)
        → Accounts w (new_runtime fn uid_of sessions check (setting_of d.mysql d.redis cfg) w)
    new_runtime-Accounts w =
        IsStarted-Accounts w _
          (new_runtime-IsStarted fn uid_of sessions check (setting_of d.mysql d.redis cfg) w)
