-- ===== src/Messages/Account.antt =====
-- The message types of internal/protocolpb/game.pb.go for login, archives, payment, commands and
-- errors. An int32, int64 or enum field is an integer, a string or bytes field a list of bytes.
use game_server_go.Base.{Bool, List, Option}
use game_server_go.Base.Int.{ℤ}
use game_server_go.Base.Text.{Bytes}

pub record LoginReq : Type 0 where
  pub code : Bytes

pub record LoginResp : Type 0 where
  pub uid : ℤ
  pub nickname : Bytes
  pub token : Bytes

pub record HeartbeatReq : Type 0 where
  pub timestamp : ℤ

pub record HeartbeatResp : Type 0 where
  pub timestamp : ℤ

pub record PlayerArchive : Type 0 where
  pub schema_version : ℤ
  pub gold : ℤ
  pub exp : ℤ
  pub best_score : ℤ
  pub total_kills : ℤ
  pub total_games : ℤ
  pub highest_cleared_dungeon : ℤ
  pub talent_points : ℤ
  pub unlocked_styles : List ℤ
  pub last_style_id : ℤ

pub record SaveArchiveReq : Type 0 where
  pub archive : Option PlayerArchive

pub record SaveArchiveResp : Type 0 where
  pub success : Bool

abbrev pub LoadArchiveReq : Type 0
LoadArchiveReq = record {}

pub record LoadArchiveResp : Type 0 where
  pub found : Bool
  pub archive : Option PlayerArchive

pub record CreateOrderReq : Type 0 where
  pub product_id : ℤ

pub record CreateOrderResp : Type 0 where
  pub order_no : Bytes

pub record PayResultNotify : Type 0 where
  pub order_no : Bytes
  pub status : Bytes
  pub product_id : ℤ

pub record GmCommandReq : Type 0 where
  pub cmd : Bytes
  pub args_json : Bytes

pub record GmCommandResp : Type 0 where
  pub cmd : Bytes
  pub result : Bytes

pub record ErrorResp : Type 0 where
  pub code : ℤ
  pub msg : Bytes
