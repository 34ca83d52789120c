-- ===== src/Config.antt =====
-- internal/config/config.go: the values that a configuration file gives, and the addresses that are made
-- of them. Reading the file and filling the records is a library's, viper's.
use game_server_go.Base.{Bool, true, List, ◌++◌, ◌∷◌, Result, ok, err}
use game_server_go.Base.Decimal.{format_int}
use game_server_go.Base.Int.{ℤ}
use game_server_go.Base.Text.{Bytes, utf8}

pub record DevelopmentConfig : Type 0 where
  pub enabled : Bool
  pub login_enabled : Bool

pub record ServerConfig : Type 0 where
  pub host : Bytes
  pub port : ℤ
  pub name : Bytes

pub record GmConfig : Type 0 where
  pub admin_uids : List ℤ

pub record WechatConfig : Type 0 where
  pub app_id : Bytes
  pub app_secret : Bytes
  pub payment_enabled : Bool
  pub mch_id : Bytes
  pub mch_private_key_path : Bytes
  pub mch_cert_serial_no : Bytes
  pub wechat_pay_cert_path : Bytes
  pub pay_notify_url : Bytes

pub record LogConfig : Type 0 where
  pub level : Bytes
  pub filename : Bytes
  pub max_size : ℤ
  pub max_backups : ℤ
  pub max_age : ℤ

pub record RedisConfig : Type 0 where
  pub host : Bytes
  pub port : ℤ
  pub password : Bytes
  pub db : ℤ

pub record MySqlConfig : Type 0 where
  pub host : Bytes
  pub port : ℤ
  pub user : Bytes
  pub password : Bytes
  pub db_name : Bytes
  pub max_idle_conns : ℤ
  pub max_open_conns : ℤ

-- "host:port"
host_port : Bytes → ℤ → Bytes
host_port host port = host ++ (b':' ∷ format_int port)

-- ServerConfig.Addr and RedisConfig.Addr
unfoldable pub server_addr : ServerConfig → Bytes
unfolding host_port
server_addr c = host_port c.host c.port

unfoldable pub redis_addr : RedisConfig → Bytes
unfolding host_port
redis_addr c = host_port c.host c.port

-- MySQLConfig.DSN
unfoldable pub dsn : MySqlConfig → Bytes
unfolding host_port
dsn c =
    c.user
    ++ (b':' ∷ c.password)
    ++ (utf8 "@tcp(" ++ host_port c.host c.port)
    ++ (utf8 ")/" ++ c.db_name)
    ++ utf8 "?charset=utf8mb4&parseTime=True&loc=Local"

-- Config
pub record Settings : Type 0 where
  pub server : ServerConfig
  pub redis : RedisConfig
  pub mysql : MySqlConfig
  pub wechat : WechatConfig
  pub log : LogConfig
  pub gm : GmConfig
  pub development : DevelopmentConfig

-- What Load tells viper: a variable of the environment is named by the prefix and the key, with the
-- second text in place of the first.
pub record Viper : Type 0 where
  pub config_file : Bytes
  pub config_type : Bytes
  pub env_prefix : Bytes
  pub env_key_replacer : Bytes × Bytes
  pub automatic_env : Bool

-- The two ways in which Load fails, each with the text of the library's error.
pub data LoadError : Type 0 where
  read_failed parse_failed : Bytes → LoadError

viper_for : Bytes → Viper
viper_for config_path = record {
  config_file = config_path;
  config_type = utf8 "yaml";
  env_prefix = utf8 "GAME";
  env_key_replacer = (utf8 ".", utf8 "_");
  automatic_env = true;
}

unmarshalled : Result Bytes Settings → Result LoadError Settings
unmarshalled (err e) = err (parse_failed e)
unmarshalled (ok cfg) = ok cfg

-- ReadInConfig and Unmarshal are viper's.
module _ {Values : Type 0} (read_in_config : Viper → Result Bytes Values)
    (unmarshal : Values → Result Bytes Settings) where
  parsed : Result Bytes Values → Result LoadError Settings
  unfolding unmarshalled
  parsed (err e) = err (read_failed e)
  parsed (ok values) = unmarshalled (unmarshal values)

  -- Load
  load : Bytes → Result LoadError Settings
  unfolding parsed viper_for
  load config_path = parsed (read_in_config (viper_for config_path))
