-- ===== src/Game/InMemory.antt =====
-- Archives of internal/game over internal/store/memory_development.go.
use game_server_go.Base.{◌≡◌, ◌≢◌, refl, sym, ap, ◌∙◌, true, none, some, Result, ok, err, arith}
use game_server_go.Base.Equality.{int_eq}
use game_server_go.Base.Int.{ℤ, pos, eqb_ℤ_iff}
use game_server_go.Base.Map.{get, put, get-put, get-put_self}
use game_server_go.Base.Text.{Bytes}
use game_server_go.Messages.Account.{PlayerArchive, SaveArchiveResp, LoadArchiveResp}
use game_server_go.Protocol.Errors.{GoError}
use game_server_go.Store.Repository.{
  Archive, ArchiveRepository, Found, not_found, failed, is_not_found,
}
use game_server_go.Store.Memory
use game_server_go.Store.Memory.{MemoryStore}
use game_server_go.Game.{
  save, save_bytes, load, load_found, read_bytes, save_handler, save_reply, load_handler,
  load_reply,
}

abbrev pub memory_archives : ArchiveRepository MemoryStore
memory_archives = record { get_archive = Memory.get_archive; save_archive = Memory.save_archive }

module _ (marshal : PlayerArchive → Result Bytes Bytes)
    (unmarshal : Bytes → Result Bytes PlayerArchive) where
  abbrev pub saved_by :
      ℤ → PlayerArchive → MemoryStore → Result GoError SaveArchiveResp × MemoryStore
  saved_by uid a s = save_handler memory_archives marshal uid (record { archive = some a }) s

  abbrev pub loaded_by : ℤ → MemoryStore → Result GoError LoadArchiveResp
  loaded_by uid s = (load_handler memory_archives unmarshal uid s).0

  -- The row that a save writes.
  abbrev pub row_of : ℤ → Bytes → Archive
  row_of uid b = record { id = pos 0; player_id = uid; blob = b; created_at = 0; updated_at = 0 }

  abbrev pub with_row : ℤ → Bytes → MemoryStore → MemoryStore
  with_row uid b s = record s { archives_by_uid = put uid (row_of uid b) s.archives_by_uid }

  pub saved_by_lem :
      (uid : ℤ) (a : PlayerArchive) (b : Bytes) (s : MemoryStore)
      → marshal a ≡ ok b
      → saved_by uid a s ≡ (ok (record { success = true }), with_row uid b s)
  unfolding save_handler save save_reply save_bytes Memory.save_archive
  saved_by_lem uid a b s written = rw (written, save_bytes) refl

  -- What a lookup of the archives is answered with.
  answer_to : Found Archive → MemoryStore → Result GoError LoadArchiveResp
  answer_to r s = (load_reply memory_archives (load_found memory_archives unmarshal (r, s))).0

  loaded_by_lem :
      (uid : ℤ) (s : MemoryStore)
      → loaded_by uid s ≡ answer_to (Memory.or_not_found (get uid s.archives_by_uid)) s
  unfolding load_handler load answer_to Memory.get_archive
  loaded_by_lem uid s = refl

  read_state :
      (u : Result Bytes PlayerArchive) (s1 s2 : MemoryStore)
      → (load_reply memory_archives (read_bytes memory_archives u, s1)).0
        ≡ (load_reply memory_archives (read_bytes memory_archives u, s2)).0
  unfolding read_bytes load_reply
  read_state (ok a) s1 s2 = refl
  read_state (err t) s1 s2 = refl

  answer_to_state : (r : Found Archive) (s1 s2 : MemoryStore) → answer_to r s1 ≡ answer_to r s2
  unfolding answer_to load_found load_reply is_not_found
  answer_to_state (err not_found) s1 s2 = refl
  answer_to_state (err (failed t)) s1 s2 = refl
  answer_to_state (ok none) s1 s2 = refl
  answer_to_state (ok (some stored)) s1 s2 = read_state (unmarshal stored.blob) s1 s2

  loaded_by_row :
      (uid : ℤ) (a : PlayerArchive) (b : Bytes) (s : MemoryStore)
      → unmarshal b ≡ ok a
      → loaded_by uid (with_row uid b s) ≡ ok (record { found = true; archive = some a })
  unfolding answer_to load_found load_reply read_bytes Memory.or_not_found
  loaded_by_row uid a b s reads =
      loaded_by_lem uid (with_row uid b s)
      ∙ ap (λ r. answer_to (Memory.or_not_found r) (with_row uid b s))
          (get-put_self uid (row_of uid b) s.archives_by_uid)
      ∙ ap (λ u. (load_reply memory_archives (read_bytes memory_archives u, with_row uid b s)).0)
          reads

  loaded_by_other :
      (uid other : ℤ) (b : Bytes) (s : MemoryStore)
      → other ≢ uid
      → loaded_by other (with_row uid b s) ≡ loaded_by other s
  loaded_by_other uid other b s apart =
      loaded_by_lem other (with_row uid b s)
      ∙ ap (λ r. answer_to (Memory.or_not_found r) (with_row uid b s))
          (ground (arith, get-put uid other (row_of uid b) s.archives_by_uid, eqb_ℤ_iff uid other))
      ∙ answer_to_state _ (with_row uid b s) s
      ∙ sym (loaded_by_lem other s)

  -- An archive that marshals is saved, and loading it answers with it, if its bytes decode to it;
  -- what any other player loads is as before.
  pub load_handler-save_handler :
      (uid other : ℤ) (a : PlayerArchive) (b : Bytes) (s : MemoryStore)
      → marshal a ≡ ok b
      → unmarshal b ≡ ok a
      → other ≢ uid
      → ((saved_by uid a s).0 ≡ ok (record { success = true }))
        × (loaded_by uid (saved_by uid a s).1 ≡ ok (record { found = true; archive = some a }))
        × (loaded_by other (saved_by uid a s).1 ≡ loaded_by other s)
  load_handler-save_handler uid other a b s written reads apart =
      rw (saved_by_lem uid a b s written)
        (refl, loaded_by_row uid a b s reads, loaded_by_other uid other b s apart)
