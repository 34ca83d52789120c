-- ===== src/Runtime/Development.antt =====
-- The development server of cmd/server/main.go as one connection sees it: newRuntime's handlers over
-- the development store, behind the kernel, with the frames that wait to be sent.
pub mod Answers
pub mod Handlers
pub mod Methods
use game_server_go.Base.{
  ℕ, Bool, true, false, List, [], ◌∷◌, ◌++◌, Option, none, some, Result, ok, err, ◌==◌,
  if◌then◌else◌,
}
use game_server_go.Base.Float.{FloatOps, Float64}
use game_server_go.Base.Int.{ℤ, pos}
use game_server_go.Base.Text.{Bytes, utf8}
use game_server_go.Messages.{Message, MsgType}
use game_server_go.Messages.Account.{PlayerArchive}
use game_server_go.Protocol.Codec.{CodecError, encode}
use game_server_go.Protocol.Errors.{GoError, internal}
use game_server_go.Protocol.Ids.{
  id_login_req, id_heartbeat_req, id_save_archive_req, id_load_archive_req, id_combat_result_req,
  id_get_player_stats_req,
}
use game_server_go.Pipeline.{Context}
use game_server_go.Session.{Session, new_session}
use game_server_go.Kernel.{Kernel, Reply, Handler}
use game_server_go.Kernel.Dispatch.{ReplyTo}
use game_server_go.Hooks.{context_uid}
use game_server_go.Store.Repository.{StoreError, not_found, Found, SessionRepository, Archive}
use game_server_go.Store.Memory
use game_server_go.Store.Memory.{MemoryStore}
use game_server_go.Store.Memory.Settling.{Encoding}
use game_server_go.Login.Exchange.{development_exchange}
use game_server_go.Login.Handler.{login_handler, heartbeat_handler}
use game_server_go.Login.Service.InMemory.{memory_players, memory_sessions}
use game_server_go.Game.{save_handler, load_handler}
use game_server_go.Game.InMemory.{memory_archives}
use game_server_go.Combat.Config.{default_combat_config}
use game_server_go.Combat.Handler.Profile.{player_stats}
use game_server_go.Combat.Handler.Results.{combat_result, service}
use game_server_go.Combat.Service.InMemory.{memory_settlements}
use game_server_go.Combat.Validator.{Fault}
use game_server_go.Payment.{create_order}
use game_server_go.Runtime.Start.{Setting, Runtime, RuntimeError, new_runtime}

-- The session of the connection, the store, and the frames that wait to be sent, oldest first.
pub record World : Type 0 where
  pub current : Session ℕ
  pub store : MemoryStore
  pub outbox : List Bytes

-- What the program's libraries do: protocol buffers in the store and on the wire, floating point,
-- the texts of fmt and json, and the tokens of crypto/rand.
pub record Libraries : Type 0 where
  pub encoding : Encoding
  pub marshal : Message → Option Bytes
  pub unmarshal : MsgType → Bytes → Option Message
  pub floats : FloatOps
  pub fault_text : Fault → Bytes
  pub encode_metadata : ℤ → Float64 → ℤ → ℤ → Result Bytes Bytes
  pub token : Result Bytes Bytes

-- uidFromCtx of the handlers' packages, and session.FromContext
uid_of : ℕ → World → ℤ
uid_of s w = w.current.uid

session_from : Context → World → Option (Session ℕ)
session_from ctx w = elim ctx.session [ none ↦ none | some s ↦ some w.current ]

-- hooks.Auth asks the development store.
abbrev pub world_sessions : SessionRepository World
world_sessions = record {
  set_session =
      λ uid d w. let r = Memory.set_session uid d w.store in (r.0, record w { store = r.1 });
  get_session = λ uid w. let r = Memory.get_session uid w.store in (r.0, record w { store = r.1 });
  del_session = λ uid w. let r = Memory.del_session uid w.store in (r.0, record w { store = r.1 });
}

-- A method's response and error as the kernel reads them.
unfoldable pub replied : {A : Type 0} → (A → Message) → Result GoError A → Reply
replied wrap (ok a) = record { response = some (wrap a); error = none }
replied wrap (err e) = record { response = none; error = some e }

unfoldable pub on_store :
    {A : Type 0} → (A → Message) → Result GoError A × MemoryStore → World → Reply × World
unfolding replied
on_store wrap (r, s) w = (replied wrap r, record w { store = s })

on_session :
    {A : Type 0}
    → (A → Message)
    → Result GoError A × Option (Session ℕ) × MemoryStore
    → World
    → Reply × World
unfolding replied
on_session wrap (r, none, s) w = (replied wrap r, record w { store = s })
on_session wrap (r, some current, s) w = (replied wrap r, record w { current = current; store = s })

-- The kernel calls a method with requests of its own type only.
other_type : World → Reply × World
other_type w =
    (record { response = none; error = some (internal (utf8 "request of another type")) }, w)

-- A row of the store beside a nil error.
stored_row : Found Archive × MemoryStore → Result StoreError Archive × MemoryStore
stored_row (ok (some a), s) = (ok a, s)
stored_row (ok none, s) = (err not_found, s)
stored_row (err e, s) = (err e, s)

module _ (libs : Libraries) (login_enabled : Bool) where
  store_marshal : PlayerArchive → Result Bytes Bytes
  store_marshal a = libs.encoding.marshal_archive (some a)

  login_method : Handler World
  unfolding on_session session_from other_type
  login_method ctx (Message.login_req r) w =
      on_session Message.login_resp
        (login_handler memory_players memory_sessions (development_exchange login_enabled r.code)
          libs.token (session_from ctx w) w.store)
        w
  login_method ctx _ w = other_type w

  heartbeat_method : Handler World
  unfolding on_store session_from other_type
  heartbeat_method ctx (Message.heartbeat_req r) w =
      on_store Message.heartbeat_resp
        (heartbeat_handler memory_players memory_sessions (session_from ctx w) r w.store) w
  heartbeat_method ctx _ w = other_type w

  save_method : Handler World
  unfolding on_store store_marshal uid_of other_type
  save_method ctx (Message.save_archive_req r) w =
      on_store Message.save_archive_resp
        (save_handler memory_archives store_marshal (context_uid uid_of ctx w) r w.store) w
  save_method ctx _ w = other_type w

  load_method : Handler World
  unfolding on_store uid_of other_type
  load_method ctx (Message.load_archive_req r) w =
      on_store Message.load_archive_resp
        (load_handler memory_archives libs.encoding.unmarshal_archive (context_uid uid_of ctx w)
          w.store)
        w
  load_method ctx _ w = other_type w

  combat_method : Handler World
  unfolding on_store uid_of other_type
  combat_method ctx (Message.combat_result_req r) w =
      on_store Message.combat_result_resp
        (combat_result libs.floats default_combat_config none libs.fault_text libs.encode_metadata
          (service (some (memory_settlements libs.encoding))) (context_uid uid_of ctx w) r w.store)
        w
  combat_method ctx _ w = other_type w

  stats_method : Handler World
  unfolding on_store uid_of other_type stored_row
  stats_method ctx (Message.get_player_stats_req r) w =
      on_store Message.get_player_stats_resp
        (player_stats libs.encoding.unmarshal_archive default_combat_config none
          (some Memory.get_development_player_level)
          (some (λ uid s. stored_row (Memory.get_archive uid s))) (context_uid uid_of ctx w)
          w.store)
        w
  stats_method ctx _ w = other_type w

  order_method : Handler World
  unfolding replied other_type
  order_method ctx (Message.create_order_req r) w =
      (replied Message.create_order_resp (create_order r), w)
  order_method ctx _ w = other_type w

  -- The methods that newRuntime registers in development, by the identifier of their request.
  unfoldable pub development_method : ℕ → Handler World
  unfolding login_method heartbeat_method save_method load_method combat_method stats_method
      order_method
  development_method id =
      if id == id_login_req
      then login_method
      else if id == id_heartbeat_req
      then heartbeat_method
      else if id == id_save_archive_req
      then save_method
      else if id == id_load_archive_req
      then load_method
      else if id == id_combat_result_req
      then combat_method
      else if id == id_get_player_stats_req
      then stats_method
      else order_method

  -- newRuntime of a configuration for development; it opens no other store and checks no rates.
  unfoldable pub development_runtime : World → Result RuntimeError (Runtime World) × World
  unfolding development_method uid_of
  development_runtime =
      new_runtime development_method uid_of world_sessions (λ key limit window w. (ok true, w))
        (record {
          payment = false;
          in_development = true;
          open_mysql = λ w. (ok none, w);
          open_redis = λ w. (ok none, w);
        })

posted : Result CodecError Bytes → World → Bool × World
posted (err e) w = (false, w)
posted (ok wire) w = (true, record w { outbox = w.outbox ++ (wire ∷ []) })

-- Reply of the connection: the frame waits to be sent.
unfoldable pub post : Libraries → ReplyTo World
unfolding posted
post libs sess seq msg_id payload w = posted (encode libs.marshal msg_id seq (some payload)) w

-- A connection that has been accepted by a server with this store.
unfoldable pub connected : MemoryStore → World
connected store = record { current = new_session; store = store; outbox = [] }
