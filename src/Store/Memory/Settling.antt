-- ===== src/Store/Memory/Settling.antt =====
-- Settle of internal/store/memory_development.go: the settlements kept by player and run. The
-- encoding of protocol buffers is a parameter.
pub mod Outcomes
pub mod Stored
pub mod Answers
use game_server_go.Base.{
  ◌≡◌, ◌≢◌, refl, Bool, true, false, Bool-cases, Option-cases, Option, none, some, Result, ok, err,
  Result-cases, arith, if◌then◌else◌, ◌++◌,
}
use game_server_go.Base.Equality.{◌==◌, int_eq, beq_refl}
use game_server_go.Base.Int.{ℤ, pos, ltb_ℤ}
use game_server_go.Base.Map.{get, put, get-put, get-put_self}
use game_server_go.Base.Text.{Bytes, utf8}
use game_server_go.Messages.Account.{PlayerArchive}
use game_server_go.Messages.Combat.{CombatResultReq, CombatResultResp}
use game_server_go.Store.Repository.{Archive, StoreError, failed}
use game_server_go.Store.Settlement.{settle_archive, fresh_archive}
use game_server_go.Store.Memory.{MemoryStore, SettlementKey, key_eq, level_of}

-- proto.Marshal and proto.Unmarshal, with the text of their errors.
pub record Encoding : Type 0 where
  pub marshal_archive : Option PlayerArchive → Result Bytes Bytes
  pub unmarshal_archive : Bytes → Result Bytes PlayerArchive
  pub marshal_response : CombatResultResp → Result Bytes Bytes
  pub unmarshal_response : Bytes → Result Bytes CombatResultResp

-- &CombatResultReq.RunId of a player, as the key of the settlements.
abbrev pub key_of : ℤ → CombatResultReq → SettlementKey
key_of player_id req = record { player_id = player_id; run_id = req.run_id }

-- The level shown is the highest settled.
unfoldable pub raise_level : ℤ → CombatResultReq → MemoryStore → MemoryStore
raise_level player_id req s =
    if ltb_ℤ (level_of player_id s) req.player_level
    then record s { player_levels = put player_id req.player_level s.player_levels }
    else s

-- The three writes of a settlement.
unfoldable pub record_settlement : ℤ → CombatResultReq → Bytes → Bytes → MemoryStore → MemoryStore
unfolding raise_level
record_settlement player_id req archive_bytes response_bytes s =
    let s1 = record s {
      archives_by_uid =
          put player_id
            (record {
              id = pos 0;
              player_id = player_id;
              blob = archive_bytes;
              created_at = 0;
              updated_at = 0;
            })
            s.archives_by_uid;
    } in
    let s2 = raise_level player_id req s1 in
    record s2 { settlements = put (key_of player_id req) response_bytes s2.settlements }

module _ (c : Encoding) where
  replay_answer :
      CombatResultReq → Result Bytes CombatResultResp → Result StoreError CombatResultResp
  replay_answer req (err e) = err (failed (utf8 "decode stored settlement: " ++ e))
  replay_answer req (ok r) = ok (record r { duplicate = true; run_id = req.run_id })

  -- The archive that the settlement starts from.
  unfoldable pub archive_before : Option Archive → Result StoreError PlayerArchive
  archive_before none = ok fresh_archive
  archive_before (some stored) = elim (c.unmarshal_archive stored.blob) [
    | err e ↦ err (failed (utf8 "store: malformed settlement archive: " ++ e))
    | ok a ↦ ok a
  ]

  -- The archive's bytes, then those of the answer that holds it.
  store_settlement :
      ℤ
      → CombatResultReq
      → CombatResultResp
      → Result Bytes Bytes
      → Result Bytes Bytes
      → MemoryStore
      → Result StoreError CombatResultResp × MemoryStore
  unfolding record_settlement
  store_settlement player_id req response (err e) rest s =
      (err (failed (utf8 "encode settlement archive: " ++ e)), s)
  store_settlement player_id req response (ok archive_bytes) (err e) s =
      (err (failed (utf8 "encode settlement response: " ++ e)), s)
  store_settlement player_id req response (ok archive_bytes) (ok response_bytes) s =
      (ok response, record_settlement player_id req archive_bytes response_bytes s)

  store_settled :
      ℤ
      → CombatResultReq
      → Result StoreError CombatResultResp
      → MemoryStore
      → Result StoreError CombatResultResp × MemoryStore
  unfolding store_settlement
  store_settled player_id req (err e) s = (err e, s)
  store_settled player_id req (ok response) s =
      store_settlement player_id req response (c.marshal_archive response.archive)
        (c.marshal_response response) s

  settle_with :
      ℤ
      → CombatResultReq
      → Result StoreError PlayerArchive
      → MemoryStore
      → Result StoreError CombatResultResp × MemoryStore
  unfolding store_settled
  settle_with player_id req (err e) s = (err e, s)
  settle_with player_id req (ok a) s =
      store_settled player_id req (settle_archive (some a) req s.settlement_policy) s

  settle_keyed :
      ℤ
      → CombatResultReq
      → Option Bytes
      → MemoryStore
      → Result StoreError CombatResultResp × MemoryStore
  unfolding replay_answer archive_before settle_with
  settle_keyed player_id req (some stored) s = (replay_answer req (c.unmarshal_response stored), s)
  settle_keyed player_id req none s =
      settle_with player_id req (archive_before (get player_id s.archives_by_uid)) s

  -- Settle
  unfoldable pub settle :
      ℤ → Option CombatResultReq → MemoryStore → Result StoreError CombatResultResp × MemoryStore
  unfolding settle_keyed
  settle player_id none s = (err (failed (utf8 "settle combat: nil request")), s)
  settle player_id (some req) s =
      settle_keyed player_id req (get (key_of player_id req) s.settlements) s
