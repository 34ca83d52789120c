-- ===== src/Game.antt =====
-- internal/game: a player's archive, saved and loaded over any archive repository of a state `W`.
pub mod InMemory
use game_server_go.Base.{
  Bool, true, false, Option, none, some, Result, ok, err, ◌++◌, if◌then◌else◌,
}
use game_server_go.Base.Int.{ℤ, pos}
use game_server_go.Base.Text.{Bytes, utf8}
use game_server_go.Messages.Account.{
  PlayerArchive, SaveArchiveReq, SaveArchiveResp, LoadArchiveResp,
}
use game_server_go.Protocol.Errors.{GoError, biz, err_internal, err_archive_save_failed}
use game_server_go.Store.Repository.{
  Archive, ArchiveRepository, StoreError, is_not_found, failed, Found,
}

-- Save fails as the store does, or with a text of its own.
module _ {W : Type 0} (archives : ArchiveRepository W) where
  save_bytes : ℤ → Result Bytes Bytes → W → Option StoreError × W
  save_bytes uid (err e) w = (some (failed (utf8 "marshal archive: " ++ e)), w)
  save_bytes uid (ok b) w =
      archives.save_archive
        (some (record { id = pos 0; player_id = uid; blob = b; created_at = 0; updated_at = 0 })) w

  -- ArchiveService.Save; proto.Marshal is the parameter `marshal`.
  unfoldable pub save :
      (PlayerArchive → Result Bytes Bytes) → ℤ → Option PlayerArchive → W → Option StoreError × W
  unfolding save_bytes
  save marshal uid none w = (some (failed (utf8 "game: nil archive")), w)
  save marshal uid (some archive) w = save_bytes uid (marshal archive) w

  read_bytes : Result Bytes PlayerArchive → Result StoreError (Option PlayerArchive)
  read_bytes (err e) = err (failed (utf8 "game: malformed stored protobuf archive: " ++ e))
  read_bytes (ok archive) = ok (some archive)

  -- The results of Load, an archive and whether one was found, are one option.
  load_found :
      (Bytes → Result Bytes PlayerArchive)
      → Found Archive × W
      → Result StoreError (Option PlayerArchive) × W
  unfolding read_bytes
  load_found unmarshal (err e, w) = (if is_not_found e then ok none else err e, w)
  load_found unmarshal (ok none, w) =
      (err (failed (utf8 "game: archive repository returned nil archive")), w)
  load_found unmarshal (ok (some stored), w) = (read_bytes (unmarshal stored.blob), w)

  -- ArchiveService.Load
  unfoldable pub load :
      (Bytes → Result Bytes PlayerArchive) → ℤ → W → Result StoreError (Option PlayerArchive) × W
  unfolding load_found
  load unmarshal uid w = load_found unmarshal (archives.get_archive uid w)

  save_reply : Option StoreError × W → Result GoError SaveArchiveResp × W
  save_reply (some e, w) = (err (biz err_archive_save_failed (utf8 "save archive failed")), w)
  save_reply (none, w) = (ok (record { success = true }), w)

  load_reply : Result StoreError (Option PlayerArchive) × W → Result GoError LoadArchiveResp × W
  load_reply (err e, w) = (err (biz err_internal (utf8 "load archive failed")), w)
  load_reply (ok none, w) = (ok (record { found = false; archive = none }), w)
  load_reply (ok (some a), w) = (ok (record { found = true; archive = some a }), w)

  -- Handler.SaveArchive and Handler.LoadArchive, for the player of the context's session.
  unfoldable pub save_handler :
      (PlayerArchive → Result Bytes Bytes)
      → ℤ
      → SaveArchiveReq
      → W
      → Result GoError SaveArchiveResp × W
  unfolding save_reply
  save_handler marshal uid req w = save_reply (save marshal uid req.archive w)

  unfoldable pub load_handler :
      (Bytes → Result Bytes PlayerArchive) → ℤ → W → Result GoError LoadArchiveResp × W
  unfolding load_reply
  load_handler unmarshal uid w = load_reply (load unmarshal uid w)
