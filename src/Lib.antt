-- ===== src/Lib.antt =====
-- The game server: a connection's frames are decoded, pass hooks, reach the handler of their message
-- and are answered; behind the handlers stand a login service, a settlement service for finished
-- runs of the dungeon game, and repositories for players, sessions and archives.
--
-- Base holds the helpers that all share: integers with the wrap-around of int32 and int64 (Int), maps
-- as association lists (Map), strings as lists of bytes with the functions of package strings (Text),
-- floating point values as bit patterns (Float), and Go's pairs of a value and an error (Results).
--
-- The files and the code they are about:
--   Messages, Messages/*: the message structs of internal/protocolpb/game.pb.go, as records, and the
--     message types. Marshalling is generated code and always a parameter.
--   Protocol/Codec, Ids, Errors, Routes: the files of internal/protocol with these names. `encode` and
--     `decode` are Encode and Decode, `route_for` is RouteFor.
--   Session: internal/session/session.go. A callback is a value of a type `C` and what calling it does
--     is an argument of `close`.
--   Pipeline: internal/pipeline/pipeline.go. Hooks are functions on a state `W` of whatever they touch.
--   Kernel: internal/kernel/kernel.go. `register` is Register, with its panics as errors and the checks
--     by reflection as the constructors of `HandlerValue`; Kernel/Dispatch has `dispatch`, Dispatch.
--   Hooks: internal/hooks/hooks.go, `auth` and `rate_limit`; Hooks/RateLimit puts the Redis store under
--     the second.
--   Store/Repository: the interfaces of internal/store/repository.go as records of operations on a state.
--   Store/Settlement: internal/store/settlement.go, with every product and sum wrapped as int64 or int32.
--   Store/Memory: internal/store/memory_development.go. Each method holds the lock from its first access
--     to its last, so it is one function on `MemoryStore`; Store/Memory/Settling has `settle`, Settle.
--   Login/Exchange, Login/Service: internal/login/code_exchange.go and service.go, over any repositories.
--     Login/Service/InMemory puts the development store under the service.
--   Combat/Config, Validator, Service: the files of internal/combat with these names. Combat/Service/InMemory
--     puts the development store under the service.
--   Login/Handler: internal/login/handler.go, with the session that it gives an identity.
--   Game: internal/game/service.go and handler.go; Game/InMemory puts the development store under it.
--   Transport: the send buffer of internal/transport/connection.go and the loop of hub.go, one event at
--     a time. Run is over once `done` is set, and late callers get the answers of `late`.
--   Transport/Callers: the methods of hub.go that other goroutines call, PushToUID as
--     `push_message_to_uid`. Where closeAll is closed and the loop still runs, a select may take either
--     case, and an argument of each call says which.
--   Transport/Pumps: sending and the two loops of connection.go, over what the websocket delivers.
--   Transport/Server: internal/transport/server.go. Each section under the lock is one step, and
--     Transport/Server/Shutdown has the steps in any order: httpSrv.Shutdown is one, and connections.Wait
--     is one that is taken only when nothing is counted. Transport/Server/Returning has the first call of
--     Shutdown as `shut_down`, which is told how many of the counted connections end, and gives nothing
--     where it waits for ever.
--   Gm: internal/gm/handler.go, with `command` for Command; its backend is a record of parameters.
--   Store/Rows: the rows of internal/model. Store/Database: the calls of the ORM, as a record of tables
--     whose conditions are tests on rows. Store/MySql: the methods of internal/store/mysql.go on it;
--     Store/Transactions: mysql_settlement.go; Store/Metadata: combat_metadata.go. Store/Opening:
--     NewMySQLStore, NewRedisStore and the two methods Close.
--   Store/Redis: internal/store/redis.go over a record of commands; the script of the rate limiter is
--     `rate_script`.
--   Combat/Handler: internal/combat/handler.go, with CombatResult in Handler/Results and the two stats
--     handlers in Handler/Profile.
--   Rank: internal/rank/handler.go. Payment: internal/payment/handler.go.
--   Login/Wechat: internal/login/wechat.go, with `code2_session` for Code2Session.
--   Logger: pkg/logger/logger.go, the package's variables as `Logging`; Logger/Lifecycle runs its calls.
--   Probe: cmd/devprobe/main.go, with send and read in Probe/Exchange and runProbe in Probe/Run.
--     Runtime/Development is the server that it talks to, with one connection; Probe/Link joins the two.
--   Config: the sections and addresses of internal/config/config.go, and `load`, Load.
--   Runtime: cmd/server/main.go, the registrations and hooks of either mode; Runtime/Start has
--     `new_runtime`, newRuntime, Runtime/Closing what newRuntimeClose returns, and Runtime/Main `main`,
--     from the loaded configuration to the exit code.
--   Examples: tests, and each theorem at a concrete input.
--
-- How they interact: the dispatch finds the handler that `register` stored, runs the hooks of Pipeline
-- (of which `auth` asks a session repository) and replies through a parameter, the connection. Login and
-- Combat reach the store only through the repository records, which Store/Memory implements; the handlers
-- of combat and of the leaderboard call Store/MySql and Store/Redis themselves.
--
-- The loops of the program run over lists and are structural recursion. Only `format_int` of Base/Decimal
-- counts down, from 20 digits, and an int64 has at most 19; Base/Parse is strconv.ParseInt. A loop that
-- waits for events runs over the list of those that come.
--
-- Parameters, since their code is not in the repository: marshalling of protocol buffers and JSON, the
-- websocket, viper, zap, the remote WeChat service, the ORM with its tables and transactions, the drivers
-- of MySQL and Redis and the commands of Redis, random tokens, and the rounding of floating point
-- arithmetic. Theorems about the stores name what they rely on as records of laws, such as
-- `Transactional`, `Counts` and `PoolLaws`. Nil receivers of services and times are left out.
--
-- Not modelled: what a migration does to the tables, the HTTP server and its deadlines, and the
-- delivery of signals, since they only call libraries; how the two pumps of one connection
-- interleave. Logging is modelled by itself and in main, and left out of the other code that logs.
pub mod Base
pub mod Messages
pub mod Protocol
pub mod Session
pub mod Pipeline
pub mod Hooks
pub mod Store
pub mod Logger
pub mod Probe
pub mod Login
pub mod Combat
pub mod Rank
pub mod Payment
pub mod Game
pub mod Transport
pub mod Gm
pub mod Config
pub mod Runtime
pub mod Examples
pub mod Kernel
