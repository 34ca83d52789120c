-- ===== src/Store/Memory/Settling/Answers.antt =====
-- Settle of internal/store/memory_development.go for a new run, and for one that was settled.
use game_server_go.Base.{◌≡◌, refl, true, none, some, ok}
use game_server_go.Base.Equality.{int_eq}
use game_server_go.Base.Int.{ℤ}
use game_server_go.Base.Map.{get}
use game_server_go.Base.Text.{Bytes}
use game_server_go.Messages.Account.{PlayerArchive}
use game_server_go.Messages.Combat.{CombatResultReq, CombatResultResp}
use game_server_go.Store.Settlement.{settle_archive}
use game_server_go.Store.Memory.{MemoryStore, key_eq}
use game_server_go.Store.Memory.Settling.{
  Encoding, key_of, record_settlement, archive_before, settle, settle_keyed, settle_with,
  store_settled, store_settlement, replay_answer,
}

module _ (c : Encoding) (uid : ℤ) (req : CombatResultReq) (s : MemoryStore) where
  pub settle_first :
      (a : PlayerArchive) (r : CombatResultResp) (archive_bytes response_bytes : Bytes)
      → get (key_of uid req) s.settlements ≡ none
      → archive_before c (get uid s.archives_by_uid) ≡ ok a
      → settle_archive (some a) req s.settlement_policy ≡ ok r
      → c.marshal_archive r.archive ≡ ok archive_bytes
      → c.marshal_response r ≡ ok response_bytes
      → settle c uid (some req) s ≡ (ok r, record_settlement uid req archive_bytes response_bytes s)
  unfolding settle
  settle_first a r ab rb fresh before paid encoded kept =
      rw
        (
          fresh, settle_keyed, before, settle_with, paid, store_settled, encoded, kept,
          store_settlement,
        )
        refl

  pub settle_again :
      (r : CombatResultResp) (stored : Bytes)
      → get (key_of uid req) s.settlements ≡ some stored
      → c.unmarshal_response stored ≡ ok r
      → settle c uid (some req) s ≡ (ok (record r { duplicate = true; run_id = req.run_id }), s)
  unfolding settle
  settle_again r stored found parsed = rw (found, settle_keyed, parsed, replay_answer) refl
