-- ===== src/Examples/Server.antt =====
-- A small server for the examples: one session whose player is known, a log of replies, and a kernel
-- with the heartbeat's handler.
use game_server_go.Base.{ℕ, true, false, List, [], ◌∷◌, ◌++◌, Option, none, some, ok}
use game_server_go.Base.Equality.{int_eq}
use game_server_go.Base.Int.{ℤ, pos}
use game_server_go.Base.Map.{Map, get, delete}
use game_server_go.Base.Text.{Bytes}
use game_server_go.Messages.{Message, MsgType}
use game_server_go.Protocol.Codec.{Frame}
use game_server_go.Store.Repository.{SessionRepository, SessionData}
use game_server_go.Kernel.{Kernel, Handler, HandlerEntry}
use game_server_go.Kernel.Dispatch.{ReplyTo}
use game_server_go.Kernel.Dispatch.Outcomes.{Sent}
use game_server_go.Hooks.{auth}

pub record World : Type 0 where
  pub log : List Sent
  pub uid : ℤ
  pub stored : Map ℤ SessionData

abbrev pub reply : ReplyTo World
reply s seq id m w = (true, record w { log = w.log ++ ((s, seq, id, m) ∷ []) })

abbrev pub uid_of : ℕ → World → ℤ
uid_of s w = w.uid

abbrev pub stored_sessions : SessionRepository World
stored_sessions = record {
  set_session = λ uid d w. (none, w);
  get_session = λ uid w. (ok (get uid w.stored), w);
  del_session = λ uid w. (none, record w { stored = delete uid w.stored });
}

abbrev pub unmarshal_heartbeat : MsgType → Bytes → Option Message
unmarshal_heartbeat t body = some (Message.heartbeat_req (record { timestamp = pos 5 }))

abbrev pub pong : Handler World
pong ctx m w = (
  record { response = some (Message.heartbeat_resp (record { timestamp = pos 5 })); error = none },
  w,
)

abbrev pub heartbeat : HandlerEntry World
heartbeat = record {
  resp_id = 1004;
  req_type = MsgType.heartbeat_req;
  fn = pong;
  auth_free = false;
}

abbrev pub handlers : Map ℕ (HandlerEntry World)
handlers = (1003, heartbeat) ∷ []

abbrev pub open_kernel : Kernel World
open_kernel = record { handlers = handlers; hooks = record { before = []; after = [] } }

abbrev pub guarded_kernel : Kernel World
guarded_kernel = record {
  handlers = handlers;
  hooks = record { before = auth uid_of handlers stored_sessions ∷ []; after = [] };
}

-- A heartbeat with sequence number 7 and no body.
abbrev pub wire_frame : Bytes
wire_frame = 10 ∷ 0 ∷ 0 ∷ 0 ∷ 235 ∷ 3 ∷ 7 ∷ 0 ∷ 0 ∷ 0 ∷ []

abbrev pub heartbeat_frame : Frame
heartbeat_frame = record { msg_id = 1003; seq = 7; body = [] }

abbrev pub nobody : World
nobody = record { log = []; uid = pos 0; stored = [] }

abbrev pub request : Message
request = Message.heartbeat_req (record { timestamp = pos 5 })
