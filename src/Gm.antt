-- ===== src/Gm.antt =====
-- internal/gm/handler.go: the commands of game masters. Decoding the arguments, reading a player from
-- MySQL and the hub are parameters over a state `W`.
pub mod Permission
use game_server_go.Base.{ℕ, Bool, true, false, [], Result, ok, err, ◌++◌, if◌then◌else◌}
use game_server_go.Base.Decimal.{format_int}
use game_server_go.Base.Equality.{◌==◌, bytes_eq}
use game_server_go.Base.Int.{ℤ, pos, leb_ℤ}
use game_server_go.Base.Text.{Bytes, utf8}
use game_server_go.Messages.Account.{GmCommandReq, GmCommandResp}
use game_server_go.Protocol.Errors.{GoError, biz, err_unauthorized}
use game_server_go.Store.Repository.{Player}

-- `uid_argument` and `content_argument` are json.Unmarshal into the structs of the commands.
pub record Backend (W : Type 0) : Type 0 where
  pub uid_argument : Bytes → Result Bytes ℤ
  pub content_argument : Bytes → Result Bytes Bytes
  pub find_player : ℤ → W → Result Bytes Player
  pub broadcast : GmCommandResp → W → W
  pub online_count : W → ℤ

module _ {W : Type 0} (b : Backend W) where
  kick_uid : Result Bytes ℤ → Result Bytes Bytes
  kick_uid (err e) = err (utf8 "invalid arguments: " ++ e)
  kick_uid (ok uid) =
      if leb_ℤ uid (pos 0)
      then err (utf8 "invalid uid")
      else ok (utf8 "kick requested for " ++ format_int uid)

  -- handleKick, which requests nothing of anybody.
  handle_kick : Bytes → Result Bytes Bytes
  unfolding kick_uid
  handle_kick arguments = kick_uid (b.uid_argument arguments)

  broadcast_content : Result Bytes Bytes → W → Result Bytes Bytes × W
  broadcast_content (err e) w = (err (utf8 "invalid arguments: " ++ e), w)
  broadcast_content (ok content) w =
      if content == [] then (err (utf8 "broadcast content is empty"), w) else (
        ok (utf8 "broadcast sent: " ++ content),
        b.broadcast (record { cmd = utf8 "broadcast"; result = content }) w,
      )

  -- handleBroadcast
  handle_broadcast : Bytes → W → Result Bytes Bytes × W
  unfolding broadcast_content
  handle_broadcast arguments w = broadcast_content (b.content_argument arguments) w

  describe : Result Bytes Player → Result Bytes Bytes
  describe (err e) = err (utf8 "get player: " ++ e)
  describe (ok p) = ok (
      utf8 "UID="
      ++ (format_int p.id
          ++ (utf8 " nickname="
              ++ (p.nickname ++ (utf8 " best_score=" ++ format_int p.best_score)))))

  query_uid : Result Bytes ℤ → W → Result Bytes Bytes
  unfolding describe
  query_uid (err e) w = err (utf8 "invalid arguments: " ++ e)
  query_uid (ok uid) w = describe (b.find_player uid w)

  -- handleQueryPlayer
  handle_query_player : Bytes → W → Result Bytes Bytes
  unfolding query_uid
  handle_query_player arguments w = query_uid (b.uid_argument arguments) w

  -- The switch on the command.
  run_command : GmCommandReq → W → Result Bytes Bytes × W
  unfolding handle_kick handle_broadcast handle_query_player
  run_command req w =
      let sent = handle_broadcast req.args_json w in
      if req.cmd == utf8 "kick"
      then (handle_kick req.args_json, w)
      else if req.cmd == utf8 "broadcast"
      then sent
      else if req.cmd == utf8 "query_player"
      then (handle_query_player req.args_json w, w)
      else if req.cmd == utf8 "online"
      then (ok (utf8 "online: " ++ format_int (b.online_count w)), w)
      else if req.cmd == utf8 "reload_config"
      then (ok (utf8 "reload config is not implemented"), w)
      else (ok (utf8 "unknown command: " ++ req.cmd), w)

  result_text : Result Bytes Bytes → Bytes
  result_text (err e) = utf8 "execution failed: " ++ e
  result_text (ok text) = text

  -- Command, for the player of the context's session.
  unfoldable pub command : (ℤ → Bool) → ℤ → GmCommandReq → W → Result GoError GmCommandResp × W
  unfolding run_command result_text
  command is_admin uid req w =
      let done = run_command req w in
      if is_admin uid
      then (ok (record { cmd = req.cmd; result = result_text done.0 }), done.1)
      else (err (biz err_unauthorized (utf8 "GM permission required")), w)
