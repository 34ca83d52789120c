-- ===== src/Store/Memory/Settling/Stored.antt =====
-- What a settlement of internal/store/memory_development.go leaves in the store, key by key.
use game_server_go.Base.{
  ◌≡◌, refl, ap, ◌∙◌, ◌⊎◌, inl, inr, true, false, Option, none, some, Result, ok, err, Result-cases,
  arith,
}
use game_server_go.Base.Equality.{int_eq}
use game_server_go.Base.Int.{ℤ, pos, ltb_ℤ, ◌<ℤ◌, ◌≤ℤ◌}
use game_server_go.Base.Map.{get, get-put_self}
use game_server_go.Base.Text.{Bytes}
use game_server_go.Messages.Account.{PlayerArchive}
use game_server_go.Messages.Combat.{CombatResultReq, CombatResultResp}
use game_server_go.Store.Repository.{Archive, StoreError}
use game_server_go.Store.Settlement.{settle_archive, fresh_archive}
use game_server_go.Store.Memory.{MemoryStore, key_eq, level_of, level_or_zero}
use game_server_go.Store.Memory.Settling.{
  Encoding, key_of, record_settlement, raise_level, archive_before, settle,
}
use game_server_go.Store.Memory.Settling.Outcomes.{
  Settles, refused, replayed, settled, settle-Settles, Spares, record_settlement-Spares,
  raise_level_archives,
}

-- The archive that a player's row gives: that of a new player where there is none, else its bytes decoded.
abbrev pub IsBefore : Encoding → Option Archive → PlayerArchive → Type 0
IsBefore c row a =
    ((row ≡ none) × (a ≡ fresh_archive))
    ⊎ ((stored : Archive) × (row ≡ some stored) × (c.unmarshal_archive stored.blob ≡ ok a))

lower_or_not : (a b : ℤ) → ((ltb_ℤ a b ≡ true) × (a <ℤ b)) ⊎ ((ltb_ℤ a b ≡ false) × (b ≤ℤ a))
unfolding ltb_ℤ
lower_or_not a b = ground arith

module _ (c : Encoding) (player_id : ℤ) where
  -- The three writes: the player's archive; the player's level, if the run's is higher; the answer of the
  -- run. Nothing else has changed.
  pub record IsStored (req : CombatResultReq) (archive_bytes response_bytes : Bytes)
      (s s1 : MemoryStore) : Type 0 where
    pub archive :
        get player_id s1.archives_by_uid
        ≡ some (record {
          id = pos 0;
          player_id = player_id;
          blob = archive_bytes;
          created_at = 0;
          updated_at = 0;
        })
    pub level :
        ((level_of player_id s <ℤ req.player_level) × (level_of player_id s1 ≡ req.player_level))
        ⊎ ((req.player_level ≤ℤ level_of player_id s)
            × (level_of player_id s1 ≡ level_of player_id s))
    pub answer : get (key_of player_id req) s1.settlements ≡ some response_bytes
    pub others : Spares c player_id req s s1

  module _ (req : CombatResultReq) (s : MemoryStore) where
    -- The three outcomes of a settlement of a run.
    pub data Stores : Result StoreError CombatResultResp × MemoryStore → Type 0 where
      refuses : {e : StoreError} → Stores (err e, s)
      replays :
          (stored : Bytes) (r : CombatResultResp)
          → get (key_of player_id req) s.settlements ≡ some stored
          → c.unmarshal_response stored ≡ ok r
          → Stores (ok (record r { duplicate = true; run_id = req.run_id }), s)
      stores :
          (a : PlayerArchive) (r : CombatResultResp) (archive_bytes response_bytes : Bytes)
          {s1 : MemoryStore}
          → get (key_of player_id req) s.settlements ≡ none
          → IsBefore c (get player_id s.archives_by_uid) a
          → settle_archive (some a) req s.settlement_policy ≡ ok r
          → c.marshal_archive r.archive ≡ ok archive_bytes
          → c.marshal_response r ≡ ok response_bytes
          → IsStored req archive_bytes response_bytes s s1
          → Stores (ok r, s1)

  archive_before-IsBefore :
      (row : Option Archive) (a : PlayerArchive) → archive_before c row ≡ ok a → IsBefore c row a
  unfolding archive_before
  archive_before-IsBefore none a e = inl (refl, cc)
  archive_before-IsBefore (some stored) a e =
      elim (Result-cases (c.unmarshal_archive stored.blob)) [
        | inl (b, decoded) ↦ inr (stored, refl, ground (arith, decoded, e))
        | inr (t, failed) ↦ absurd (ground (arith, failed, e))
      ]

  record_settlement-level :
      (req : CombatResultReq) (ab rb : Bytes) (s : MemoryStore)
      → ((level_of player_id s <ℤ req.player_level)
          × (level_of player_id (record_settlement player_id req ab rb s) ≡ req.player_level))
        ⊎ ((req.player_level ≤ℤ level_of player_id s)
            × (level_of player_id (record_settlement player_id req ab rb s) ≡ level_of player_id s))
  unfolding record_settlement raise_level level_of level_or_zero
  record_settlement-level req ab rb s =
      elim (lower_or_not (level_of player_id s) req.player_level) [
        | inl (higher, lower) ↦ inl (
          lower,
          rw higher (ap level_or_zero (get-put_self player_id req.player_level s.player_levels)),
        )
        | inr (not_higher, low) ↦ inr (low, rw not_higher refl)
      ]

  record_settlement-archive :
      (req : CombatResultReq) (ab rb : Bytes) (s : MemoryStore)
      → get player_id (record_settlement player_id req ab rb s).archives_by_uid
        ≡ some (record {
          id = pos 0;
          player_id = player_id;
          blob = ab;
          created_at = 0;
          updated_at = 0;
        })
  unfolding record_settlement
  record_settlement-archive req ab rb s =
      ap (λ m. get player_id m) (raise_level_archives c player_id req _)
      ∙ get-put_self player_id _ s.archives_by_uid

  record_settlement-IsStored :
      (req : CombatResultReq) (ab rb : Bytes) (s : MemoryStore)
      → IsStored req ab rb s (record_settlement player_id req ab rb s)
  unfolding record_settlement
  record_settlement-IsStored req ab rb s = record {
    archive = record_settlement-archive req ab rb s;
    level = record_settlement-level req ab rb s;
    answer = get-put_self (key_of player_id req) rb _;
    others = record_settlement-Spares c player_id req ab rb s;
  }

  Settles-Stores :
      {req : CombatResultReq} {s : MemoryStore}
      {out : Result StoreError CombatResultResp × MemoryStore}
      → Settles c player_id req s out
      → Stores req s out
  Settles-Stores (refused e) = refuses
  Settles-Stores (replayed stored r found decoded) = replays stored r found decoded
  Settles-Stores (settled a r ab rb fresh before paid e1 e2) =
      stores a r ab rb fresh (archive_before-IsBefore _ a before) paid e1 e2
        (record_settlement-IsStored _ ab rb _)

  -- Each settlement has one of three outcomes: refused with the store unchanged; answered from the stored
  -- answer of the run, as a duplicate, with the store unchanged; or settled, where the run had no answer,
  -- from the player's decoded archive or that of a new player. Then the bytes of the new archive are the
  -- player's, the player's level is the run's if that is higher, the bytes of the answer are the run's, and
  -- nothing else in the store has changed.
  pub settle-Stores :
      (req : CombatResultReq) (s : MemoryStore) → Stores req s (settle c player_id (some req) s)
  settle-Stores req s = Settles-Stores (settle-Settles c player_id req s)
