-- ===== src/Examples/Processes.antt =====
-- The whole process at concrete inputs: the world is the number of open pools.
use game_server_go.Base.{ℕ, ◌+◌, ◌-◌, refl, [], false, true, none, ok}
use game_server_go.Base.Int.{pos}
use game_server_go.Base.Text.{utf8}
use game_server_go.Config.{Settings}
use game_server_go.Kernel.{Handler}
use game_server_go.Logger.{Zap, nop}
use game_server_go.Logger.{initial}
use game_server_go.Store.Opening.{MySqlDriver, RedisDriver}
use game_server_go.Store.Repository.{SessionRepository}
use game_server_go.Transport.Server.{new_server, start}
use game_server_go.Transport.Server.Shutdown.{starts, here, after}
use game_server_go.Runtime.Start.{Runtime, new_runtime}
use game_server_go.Runtime.Main.{signalled, Served, setting_of, main}
use game_server_go.Runtime.Main.Pools.{Drivers}
use game_server_go.Runtime.Main.Ends.{ServingLaws, IsEnded, main-IsEnded}

abbrev pool_driver : MySqlDriver ℕ
pool_driver = record {
  open_db = λ t w. (none, w + 1);
  sql_db = λ w. (none, w);
  set_max_idle_conns = λ n w. w;
  set_max_open_conns = λ n w. w;
  auto_migrate = λ w. (none, w);
  close_db = λ w. (none, w - 1);
}

abbrev answering_redis : RedisDriver ℕ
answering_redis = record {
  new_client = λ addr password db w. w + 1;
  ping_server = λ w. (none, w);
  close_client = λ w. (none, w - 1);
}

abbrev drivers : Drivers ℕ
drivers = record {
  mysql = pool_driver;
  redis = answering_redis;
  pools = λ w. w;
  mysql_laws = record {
    opens = λ t w. refl;
    handles = λ w. refl;
    idles = λ n w. refl;
    limits = λ n w. refl;
    migrates = λ w. refl;
    closes = λ w. refl;
  };
  redis_laws = record { makes = λ a p n w. refl; pings = λ w. refl; shuts = λ w. refl };
  has_handle = λ w. refl;
}

abbrev local_settings : Settings
local_settings = record {
  server = record { host = utf8 "0.0.0.0"; port = pos 8080; name = utf8 "game" };
  redis = record { host = utf8 "redis"; port = pos 6379; password = []; db = pos 0 };
  mysql = record {
    host = utf8 "mysql";
    port = pos 3306;
    user = utf8 "game";
    password = utf8 "secret";
    db_name = utf8 "game";
    max_idle_conns = pos 10;
    max_open_conns = pos 100;
  };
  wechat = record {
    app_id = [];
    app_secret = [];
    payment_enabled = false;
    mch_id = [];
    mch_private_key_path = [];
    mch_cert_serial_no = [];
    wechat_pay_cert_path = [];
    pay_notify_url = [];
  };
  log = record {
    level = utf8 "info";
    filename = utf8 "game.log";
    max_size = pos 100;
    max_backups = pos 3;
    max_age = pos 7;
  };
  gm = record { admin_uids = [] };
  development = record { enabled = false; login_enabled = false };
}

abbrev terse : Zap
terse = record {
  enabled = λ lowest level. true;
  console_encoder = λ level text. text;
  json_encoder = λ level text. text;
}

abbrev interrupted : Runtime ℕ → ℕ → Served ℕ
interrupted rt w = record {
  heard = signalled (utf8 "interrupt");
  ending = 0;
  server = (start new_server).1;
  world = w;
}

interrupted_laws : ServingLaws drivers interrupted
unfolding new_server start
interrupted_laws = record {
  keeps = λ rt w. refl;
  reached = λ rt w. after here starts;
  not_yet = λ rt w name at. refl;
}

abbrev quiet : ℕ → Handler ℕ
quiet id ctx m w = (record { response = none; error = none }, w)

abbrev no_sessions : SessionRepository ℕ
no_sessions = record {
  set_session = λ uid s w. (none, w);
  get_session = λ uid w. (ok none, w);
  del_session = λ uid w. (none, w);
}

main-IsEnded_example :
    IsEnded terse drivers interrupted interrupted_laws nop
      (ok local_settings)
      (λ cfg.
        new_runtime quiet
          (λ s w. pos 7)
          no_sessions
          (λ k n t w. (ok true, w))
          (setting_of pool_driver answering_redis cfg)
          5)
      5
      (main terse interrupted quiet
        (λ s w. pos 7)
        no_sessions
        (λ k n t w. (ok true, w))
        pool_driver
        answering_redis
        (ok local_settings)
        (initial nop)
        5)
main-IsEnded_example =
    main-IsEnded terse drivers interrupted interrupted_laws nop (ok local_settings) quiet
      (λ s w. pos 7) no_sessions (λ k n t w. (ok true, w)) 5
