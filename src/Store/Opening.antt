-- ===== src/Store/Opening.antt =====
-- internal/store/mysql.go and redis.go: making the two stores and closing them. The drivers are parameters
-- over a state `W`, which holds the pools that they have opened.
pub mod Pools
use game_server_go.Base.{Option, none, some}
use game_server_go.Base.Int.{ℤ}
use game_server_go.Base.Text.{Bytes}
use game_server_go.Config.{MySqlConfig, RedisConfig, dsn, redis_addr}
use game_server_go.Store.MySql.{validate_and_close_on_failure}

-- gorm.Open, db.DB, the two settings of the pool, AutoMigrate of the tables, and sqlDB.Close. An error is
-- its text.
pub record MySqlDriver (W : Type 0) : Type 0 where
  pub open_db : Bytes → W → Option Bytes × W
  pub sql_db : W → Option Bytes × W
  pub set_max_idle_conns : ℤ → W → W
  pub set_max_open_conns : ℤ → W → W
  pub auto_migrate : W → Option Bytes × W
  pub close_db : W → Option Bytes × W

-- redis.NewClient with its options, which opens no connection; client.Ping and client.Close.
pub record RedisDriver (W : Type 0) : Type 0 where
  pub new_client : Bytes → Bytes → ℤ → W → W
  pub ping_server : W → Option Bytes × W
  pub close_client : W → Option Bytes × W

-- The errors of the two constructors, each with what it wraps.
pub data OpenError : Type 0 where
  mysql_connection mysql_handle mysql_migration redis_connection : Bytes → OpenError

unfoldable pub opened : {W : Type 0} → (Bytes → OpenError) → Option Bytes × W → Option OpenError × W
opened name (none, w) = (none, w)
opened name (some e, w) = (some (name e), w)

module _ {W : Type 0} (d : MySqlDriver W) where
  unfoldable migrated : MySqlConfig → Option Bytes × W → Option OpenError × W
  unfolding opened validate_and_close_on_failure
  migrated cfg (some e, w) = (some (mysql_handle e), w)
  migrated cfg (none, w) =
      let pooled =
        d.set_max_open_conns cfg.max_open_conns (d.set_max_idle_conns cfg.max_idle_conns w) in
      opened mysql_migration (validate_and_close_on_failure d.auto_migrate d.close_db pooled)

  unfoldable with_db : MySqlConfig → Option Bytes × W → Option OpenError × W
  unfolding migrated
  with_db cfg (some e, w) = (some (mysql_connection e), w)
  with_db cfg (none, w) = migrated cfg (d.sql_db w)

  -- NewMySQLStore; the store is the driver and its state.
  unfoldable pub new_mysql_store : MySqlConfig → W → Option OpenError × W
  unfolding with_db
  new_mysql_store cfg w = with_db cfg (d.open_db (dsn cfg) w)

  unfoldable close_handle : Option Bytes × W → Option Bytes × W
  close_handle (some e, w) = (some e, w)
  close_handle (none, w) = d.close_db w

  -- MySQLStore.Close
  unfoldable pub close_mysql_store : W → Option Bytes × W
  unfolding close_handle
  close_mysql_store w = close_handle (d.sql_db w)

module _ {W : Type 0} (d : RedisDriver W) where
  -- NewRedisStore
  unfoldable pub new_redis_store : RedisConfig → W → Option OpenError × W
  unfolding opened validate_and_close_on_failure
  new_redis_store cfg w = opened redis_connection (
      validate_and_close_on_failure d.ping_server d.close_client
        (d.new_client (redis_addr cfg) cfg.password cfg.db w))

  -- RedisStore.Close
  unfoldable pub close_redis_store : W → Option Bytes × W
  close_redis_store w = d.close_client w
