-- ===== src/Store/Memory/Settling/Outcomes.antt =====
-- The outcomes of Settle of internal/store/memory_development.go, and what each leaves in the store.
use game_server_go.Base.{
  ◌≡◌, ◌≢◌, refl, ap, ◌∙◌, inl, inr, true, Bool-cases, Option-cases, Option, none, some, Result, ok,
  err, Result-cases, arith,
}
use game_server_go.Base.Equality.{int_eq}
use game_server_go.Base.Int.{ℤ, pos, ltb_ℤ, eqb_ℤ_iff}
use game_server_go.Base.Map.{get, get-put, get-put_self}
use game_server_go.Base.Text.{Bytes}
use game_server_go.Messages.Account.{PlayerArchive}
use game_server_go.Messages.Combat.{CombatResultReq, CombatResultResp}
use game_server_go.Store.Repository.{StoreError}
use game_server_go.Store.Settlement.{settle_archive}
use game_server_go.Store.Memory.{
  MemoryStore, SettlementKey, key_eq, same_key_iff, level_of, level_or_zero,
}
use game_server_go.Store.Memory.Settling.{
  Encoding, key_of, record_settlement, raise_level, archive_before, settle, settle_keyed,
  settle_with, store_settled, store_settlement, replay_answer,
}

module _ (c : Encoding) (player_id : ℤ) where
  -- What a settlement of a run can come to: refused, answered from the first settlement of the run,
  -- or settled for the first time.
  pub data Settles (req : CombatResultReq) (s : MemoryStore)
      : Result StoreError CombatResultResp × MemoryStore → Type 0 where
    refused : (e : StoreError) → Settles req s (err e, s)
    replayed :
        (stored : Bytes) (r : CombatResultResp)
        → get (key_of player_id req) s.settlements ≡ some stored
        → c.unmarshal_response stored ≡ ok r
        → Settles req s (ok (record r { duplicate = true; run_id = req.run_id }), s)
    settled :
        (a : PlayerArchive) (r : CombatResultResp) (archive_bytes response_bytes : Bytes)
        → get (key_of player_id req) s.settlements ≡ none
        → archive_before c (get player_id s.archives_by_uid) ≡ ok a
        → settle_archive (some a) req s.settlement_policy ≡ ok r
        → c.marshal_archive r.archive ≡ ok archive_bytes
        → c.marshal_response r ≡ ok response_bytes
        → Settles req s (ok r, record_settlement player_id req archive_bytes response_bytes s)

  module _ (req : CombatResultReq) (s : MemoryStore) where
    replay-Settles :
        (stored : Bytes)
        → get (key_of player_id req) s.settlements ≡ some stored
        → Settles req s (replay_answer c req (c.unmarshal_response stored), s)
    unfolding replay_answer
    replay-Settles stored found = elim (Result-cases (c.unmarshal_response stored)) [
      | inl (r, e) ↦ rw (e, replay_answer) (replayed stored r found e)
      | inr (t, e) ↦ rw (e, replay_answer) (refused _)
    ]

    module _ (fresh : get (key_of player_id req) s.settlements ≡ none) (a : PlayerArchive)
        (before : archive_before c (get player_id s.archives_by_uid) ≡ ok a) where
      store_settled-Settles :
          (r : CombatResultResp)
          → settle_archive (some a) req s.settlement_policy ≡ ok r
          → Settles req s (store_settled c player_id req (ok r) s)
      unfolding store_settled store_settlement
      store_settled-Settles r paid = elim (Result-cases (c.marshal_archive r.archive)) [
        | inr (t, e) ↦ rw (e, store_settlement) (refused _)
        | inl (ab, e1) ↦ elim (Result-cases (c.marshal_response r)) [
          | inr (t, e) ↦ rw (e1, e, store_settlement) (refused _)
          | inl (rb, e2) ↦ rw (e1, e2, store_settlement) (settled a r ab rb fresh before paid e1 e2)
        ]
      ]

      settle_with-Settles : Settles req s (settle_with c player_id req (ok a) s)
      unfolding settle_with store_settled
      settle_with-Settles = elim (Result-cases (settle_archive (some a) req s.settlement_policy)) [
        | inr (t, e) ↦ rw (e, store_settled) (refused _)
        | inl (r, e) ↦ rw e (store_settled-Settles r e)
      ]

    settle_fresh-Settles :
        get (key_of player_id req) s.settlements ≡ none
        → Settles req s (settle_keyed c player_id req none s)
    unfolding settle_keyed settle_with
    settle_fresh-Settles fresh =
        elim (Result-cases (archive_before c (get player_id s.archives_by_uid))) [
          | inr (t, e) ↦ rw (e, settle_with) (refused t)
          | inl (a, e) ↦ rw e (settle_with-Settles fresh a e)
        ]

    -- Each settlement has one of the outcomes: refused with the store unchanged; answered from the
    -- stored answer of the run with the store unchanged; or settled, where the run had no answer,
    -- from the player's decoded archive, with the archive, the level and the answer stored.
    pub settle-Settles : Settles req s (settle c player_id (some req) s)
    unfolding settle settle_keyed
    settle-Settles = elim (Option-cases (get (key_of player_id req) s.settlements)) [
      | inl e ↦ rw e (settle_fresh-Settles e)
      | inr (stored, e) ↦ rw (e, settle_keyed) (replay-Settles stored e)
    ]

  refused_unchanged :
      {req : CombatResultReq} {s : MemoryStore}
      {out : Result StoreError CombatResultResp × MemoryStore}
      → Settles req s out
      → (e : StoreError) → out.0 ≡ err e
      → out.1 ≡ s
  refused_unchanged (refused e) t h = refl
  refused_unchanged (replayed stored r found decoded) t h = refl
  refused_unchanged (settled a r ab rb fresh before paid e1 e2) t h = ground arith

  -- A settlement that is refused changes nothing.
  pub settle_refused :
      (req : Option CombatResultReq) (s : MemoryStore) (e : StoreError)
      → (settle c player_id req s).0 ≡ err e
      → (settle c player_id req s).1 ≡ s
  unfolding settle
  settle_refused none s e refusal = refl
  settle_refused (some req) s e refusal = refused_unchanged (settle-Settles req s) e refusal

  settle_known :
      (req : CombatResultReq) (s : MemoryStore) (stored : Bytes) (r : CombatResultResp)
      → get (key_of player_id req) s.settlements ≡ some stored
      → c.unmarshal_response stored ≡ ok r
      → settle c player_id (some req) s
        ≡ (ok (record r { duplicate = true; run_id = req.run_id }), s)
  unfolding settle settle_keyed replay_answer
  settle_known req s stored r found decoded = rw (found, settle_keyed, decoded, replay_answer) refl

  record_settlement_key :
      (req : CombatResultReq) (ab rb : Bytes) (s : MemoryStore)
      → get (key_of player_id req) (record_settlement player_id req ab rb s).settlements ≡ some rb
  unfolding record_settlement
  record_settlement_key req ab rb s = get-put_self (key_of player_id req) rb _

  same_run :
      (req again : CombatResultReq)
      → again.run_id ≡ req.run_id
      → key_of player_id again ≡ key_of player_id req
  same_run req again same = ap (λ i. record { player_id = player_id; run_id = i }) same

  module _ {req : CombatResultReq} {s : MemoryStore} (again : CombatResultReq)
      (same : again.run_id ≡ req.run_id) where
    settled_again :
        {out : Result StoreError CombatResultResp × MemoryStore}
        → Settles req s out
        → (r : CombatResultResp) → out.0 ≡ ok r
        → ((b : Bytes) → c.marshal_response r ≡ ok b → c.unmarshal_response b ≡ ok r)
        → settle c player_id (some again) out.1
          ≡ (ok (record r { duplicate = true; run_id = again.run_id }), out.1)
    settled_again (refused e) r paid reads = absurd (ground arith)
    settled_again (replayed stored r0 found decoded) r paid reads =
        settle_known again s stored r0 (rw (same_run req again same) found) decoded ∙ ground arith
    settled_again (settled a r0 ab rb fresh before fits e1 e2) r paid reads =
        settle_known again (record_settlement player_id req ab rb s) rb r
          (rw (same_run req again same) (record_settlement_key req ab rb s))
          (reads rb (ground arith))

  -- A run that settled, settled again with any request of the same run: the answer is the first
  -- one, marked as a duplicate, and the store is unchanged, if the first answer's bytes decode to
  -- it.
  pub settle-settle :
      (req again : CombatResultReq) (s : MemoryStore) (r : CombatResultResp)
      → again.run_id ≡ req.run_id
      → (settle c player_id (some req) s).0 ≡ ok r
      → ((b : Bytes) → c.marshal_response r ≡ ok b → c.unmarshal_response b ≡ ok r)
      → settle c player_id (some again) (settle c player_id (some req) s).1 ≡ (
        ok (record r { duplicate = true; run_id = again.run_id }),
        (settle c player_id (some req) s).1,
      )
  settle-settle req again s r same paid reads =
      settled_again again same (settle-Settles req s) r paid reads

  -- What a settlement leaves alone: the players, the sessions and the policy, every other player's
  -- archive and level, and every other run's answer.
  pub record Spares (req : CombatResultReq) (s s1 : MemoryStore) : Type 0 where
    pub players : s1.players_by_id ≡ s.players_by_id
    pub index : s1.player_id_by_open_id ≡ s.player_id_by_open_id
    pub sessions : s1.sessions_by_uid ≡ s.sessions_by_uid
    pub policy : s1.settlement_policy ≡ s.settlement_policy
    pub archives :
        (other : ℤ) → other ≢ player_id → get other s1.archives_by_uid ≡ get other s.archives_by_uid
    pub levels : (other : ℤ) → other ≢ player_id → level_of other s1 ≡ level_of other s
    pub answers :
        (key : SettlementKey)
        → key ≢ key_of player_id req
        → get key s1.settlements ≡ get key s.settlements

  same_store : {req : CombatResultReq} {s : MemoryStore} → Spares req s s
  same_store = record {
    players = refl;
    index = refl;
    sessions = refl;
    policy = refl;
    archives = λ other apart. refl;
    levels = λ other apart. refl;
    answers = λ key apart. refl;
  }

  pub raise_level_archives :
      (req : CombatResultReq) (s : MemoryStore)
      → (raise_level player_id req s).archives_by_uid ≡ s.archives_by_uid
  unfolding raise_level
  raise_level_archives req s = ground arith

  raise_level_answers :
      (req : CombatResultReq) (s : MemoryStore)
      → (raise_level player_id req s).settlements ≡ s.settlements
  unfolding raise_level
  raise_level_answers req s = ground arith

  raise_level_other :
      (req : CombatResultReq) (s : MemoryStore) (other : ℤ)
      → other ≢ player_id
      → get other (raise_level player_id req s).player_levels ≡ get other s.player_levels
  unfolding raise_level
  raise_level_other req s other apart =
      elim (Bool-cases (ltb_ℤ (level_of player_id s) req.player_level)) [
        | inl e ↦ rw e (
            ground (
              arith,
              get-put player_id other req.player_level s.player_levels,
              eqb_ℤ_iff player_id other,
            ))
        | inr e ↦ rw e refl
      ]

  pub record_settlement-Spares :
      (req : CombatResultReq) (ab rb : Bytes) (s : MemoryStore)
      → Spares req s (record_settlement player_id req ab rb s)
  unfolding record_settlement raise_level level_of
  record_settlement-Spares req ab rb s = record {
    players = ground arith;
    index = ground arith;
    sessions = ground arith;
    policy = ground arith;
    archives = λ other apart. rw (raise_level_archives req _) (
        ground (
          arith,
          get-put player_id other
              (record {
                id = pos 0;
                player_id = player_id;
                blob = ab;
                created_at = 0;
                updated_at = 0;
              })
              s.archives_by_uid,
          eqb_ℤ_iff player_id other,
        ));
    levels = λ other apart. ap level_or_zero (raise_level_other req _ other apart);
    answers = λ key apart. rw (raise_level_answers req _) (
        ground (
          arith,
          get-put (key_of player_id req) key rb s.settlements,
          same_key_iff (key_of player_id req) key,
        ));
  }

  outcome-Spares :
      {req : CombatResultReq} {s : MemoryStore}
      {out : Result StoreError CombatResultResp × MemoryStore}
      → Settles req s out
      → Spares req s out.1
  outcome-Spares (refused e) = same_store
  outcome-Spares (replayed stored r found decoded) = same_store
  outcome-Spares (settled a r ab rb fresh before paid e1 e2) = record_settlement-Spares _ ab rb _

  -- A settlement spares everything but its own player's archive and level and its own run's answer.
  pub settle-Spares :
      (req : CombatResultReq) (s : MemoryStore) → Spares req s (settle c player_id (some req) s).1
  settle-Spares req s = outcome-Spares (settle-Settles req s)
