-- ===== src/Runtime/Main.antt =====
-- main of cmd/server/main.go, with openMySQLStore and openRedisStore.
pub mod Pools
pub mod Ends
use game_server_go.Base.{ℕ, Bool, List, [], ◌∷◌, ◌++◌, Option, none, some, Result, ok, err}
use game_server_go.Base.Int.{ℤ}
use game_server_go.Base.Text.{Bytes, utf8}
use game_server_go.Config.{Settings, LoadError, MySqlConfig, RedisConfig}
use game_server_go.Kernel.{Handler}
use game_server_go.Logger.{Zap, Logging, Level, info, error, fatal, init, close, emit}
use game_server_go.Store.Opening.{
  MySqlDriver, RedisDriver, OpenError, mysql_connection, mysql_handle, mysql_migration,
  redis_connection, new_mysql_store, close_mysql_store, new_redis_store, close_redis_store,
}
use game_server_go.Store.Repository.{SessionRepository, StoreError}
use game_server_go.Transport.Server.{Server}
use game_server_go.Transport.Server.Returning.{shut_down}
use game_server_go.Runtime.Closing.{runtime_close, close_runtime}
use game_server_go.Runtime.Start.{RuntimeError, Runtime, Opened, Setting, new_runtime}

-- The texts of the errors that the constructors of the stores return.
open_error_text : OpenError → Bytes
open_error_text (mysql_connection e) = utf8 "连接 MySQL 失败: " ++ e
open_error_text (mysql_handle e) = utf8 "获取底层 sql.DB 失败: " ++ e
open_error_text (mysql_migration e) = utf8 "数据库迁移失败: " ++ e
open_error_text (redis_connection e) = utf8 "连接 Redis 失败: " ++ e

unfoldable with_close : {W : Type 0} → (W → Option Bytes × W) → Option OpenError × W → Opened W
unfolding open_error_text
with_close close (none, w) = (ok (some close), w)
with_close close (some e, w) = (err (open_error_text e), w)

-- openMySQLStore and openRedisStore
unfoldable pub open_mysql_store : {W : Type 0} → MySqlDriver W → MySqlConfig → W → Opened W
unfolding with_close
open_mysql_store d cfg w = with_close (close_mysql_store d) (new_mysql_store d cfg w)

unfoldable pub open_redis_store : {W : Type 0} → RedisDriver W → RedisConfig → W → Opened W
unfolding with_close
open_redis_store d cfg w = with_close (close_redis_store d) (new_redis_store d cfg w)

-- What newRuntime reads of the configuration.
unfoldable pub setting_of : {W : Type 0} → MySqlDriver W → RedisDriver W → Settings → Setting W
unfolding open_mysql_store open_redis_store
setting_of mysql redis cfg = record {
  payment = cfg.wechat.payment_enabled;
  in_development = cfg.development.enabled;
  open_mysql = open_mysql_store mysql cfg.mysql;
  open_redis = open_redis_store redis cfg.redis;
}

-- What main hears of while the server runs: a signal, by its name, or that Start has failed with
-- another error than http.ErrServerClosed.
pub data Heard : Type 0 where
  signalled serving_failed : Bytes → Heard

-- The server and the rest of the world at that time, and how many of the connections that are then
-- counted will end.
pub record Served (W : Type 0) : Type 0 where
  pub heard : Heard
  pub ending : ℕ
  pub server : Server
  pub world : W

-- The end of the process, with its exit code.
pub record Ended (W : Type 0) : Type 0 where
  pub code : ℕ
  pub logs : Logging
  pub server : Option Server
  pub world : W

-- An entry for zap.L().
unfoldable says : Zap → Level → Bytes → Logging → Logging
unfolding emit
says zap level text logs = emit zap logs.zap_global level text logs

unfoldable says_failed : Zap → Bytes → Option Bytes → Logging → Logging
unfolding says
says_failed zap text none logs = logs
says_failed zap text (some e) logs = says zap error text logs

module _ {W : Type 0} (zap : Zap) where
  -- After Shutdown has returned.
  unfoldable release_all : Runtime W → W → Logging → Server → Ended W
  unfolding says says_failed
  release_all rt w logs server =
      let closing = close_runtime rt.closers (runtime_close Bytes) w in
      let told = says_failed zap (utf8 "close runtime resources") closing.0 logs in
      record {
        code = 0;
        logs = close (says zap info (utf8 "game server stopped") told);
        server = some server;
        world = closing.2;
      }

  unfoldable after_shutdown : Runtime W → W → Logging → Option Server → Option (Ended W)
  unfolding release_all
  after_shutdown rt w logs none = none
  after_shutdown rt w logs (some server) = some (release_all rt w logs server)

  -- Nothing comes back where Shutdown does not return. Fatal ends the process at once.
  unfoldable leave_serving : Runtime W → Heard → Served W → Logging → Option (Ended W)
  unfolding says after_shutdown
  leave_serving rt (signalled name) served logs =
      let told = says zap info (utf8 "shutdown signal received") logs in
      after_shutdown rt served.world told (shut_down served.ending served.server)
  leave_serving rt (serving_failed e) served logs = some (record {
    code = 1;
    logs = says zap fatal (utf8 "start WebSocket server") logs;
    server = some served.server;
    world = served.world;
  })

  module _ (serve : Runtime W → W → Served W) where
    unfoldable with_runtime : Logging → Result RuntimeError (Runtime W) × W → Option (Ended W)
    unfolding says leave_serving
    with_runtime logs (err e, w) = some (record {
      code = 1;
      logs = close (says zap error (utf8 "initialize server runtime") logs);
      server = none;
      world = w;
    })
    with_runtime logs (ok rt, w) =
        let served = serve rt w in
        leave_serving rt served.heard served (says zap info (utf8 "game server started") logs)

    module _ (fn : ℕ → Handler W) (uid_of : ℕ → W → ℤ) (sessions : SessionRepository W)
        (check : Bytes → ℕ → ℕ → W → Result StoreError Bool × W) (mysql : MySqlDriver W)
        (redis : RedisDriver W) where
      -- main, from what config.Load has returned.
      unfoldable pub main : Result LoadError Settings → Logging → W → Option (Ended W)
      unfolding with_runtime
      main (err e) logs w = some (record { code = 1; logs = logs; server = none; world = w })
      main (ok cfg) logs w =
          let log = cfg.log in
          with_runtime (init log.level log.filename log.max_size log.max_backups log.max_age logs)
            (new_runtime fn uid_of sessions check (setting_of mysql redis cfg) w)
