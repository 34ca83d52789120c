-- ===== src/Store/Transactions/Atomic.antt =====
-- What a call of Settle in internal/store/mysql_settlement.go may have done: nothing, a replay, or one
-- payment by the shared rules.
use game_server_go.Base.{◌≡◌, refl, ◌∙◌, true, ◌⊎◌, inl, inr, some, Result, ok, err, Bool}
use game_server_go.Base.Equality.{◌==◌, int_eq}
use game_server_go.Base.Float.{Float64}
use game_server_go.Base.Int.{ℤ}
use game_server_go.Base.Text.{Bytes}
use game_server_go.Messages.Account.{PlayerArchive}
use game_server_go.Messages.Combat.{CombatResultReq, CombatResultResp}
use game_server_go.Store.Database.{
  DbError, record_not_found, row_not_found, duplicate_key, duplicate_settlement, db_failed,
  Database,
}
use game_server_go.Store.Memory.Settling.{Encoding}
use game_server_go.Store.Repository.{Player, CombatRewardPolicy}
use game_server_go.Store.Rows.{CombatSettlement}
use game_server_go.Store.Settlement.{settle_archive}
use game_server_go.Store.Transactions.{
  settle, settle_after, settle_body, settle_for, settle_unless_run, replay, replayed, lookup_reply,
  is_run,
}
use game_server_go.Store.Transactions.Steps.{
  IsRecorded, Body, fails, body_replays, body_pays, settle_new-Body,
}

-- A body that fails is rolled back, one that succeeds is committed unless COMMIT fails, which is no
-- duplicate of a settlement; and a query changes nothing.
pub record Transactional {W : Type 0} (db : Database W) : Type 0 where
  pub rolled_back :
      (body : W → Result DbError CombatResultResp × W) (w w' : W) (e : DbError)
      → body w ≡ (err e, w')
      → db.transaction body w ≡ (err e, w)
  pub committed :
      (body : W → Result DbError CombatResultResp × W) (w w' : W) (r : CombatResultResp)
      → body w ≡ (ok r, w')
      → (db.transaction body w ≡ (ok r, w'))
        ⊎ ((t : Bytes) × (db.transaction body w ≡ (err (db_failed t), w)))
  pub reads_players : (p : Player → Bool) (w : W) → (db.players.first_locked p w).1 ≡ w
  pub reads_settlements :
      (p : CombatSettlement → Bool) (w : W) → (db.combat_settlements.first p w).1 ≡ w

module _ {W : Type 0} (db : Database W) (c : Encoding) (policy : CombatRewardPolicy) (player_id : ℤ)
    (req : CombatResultReq) (w : W) where
  -- What a settlement from the state `w` has returned and left.
  pub data IsAtomic : Result DbError CombatResultResp × W → Type 0 where
    refused : {e : DbError} → IsAtomic (err e, w)
    replays :
        {r : CombatResultResp} → r.duplicate ≡ true → r.run_id ≡ req.run_id → IsAtomic (ok r, w)
    pays :
        {r : CombatResultResp} {w' : W} (a : PlayerArchive)
        → settle_archive (some a) req policy ≡ ok r
        → IsRecorded db c policy player_id req r w'
        → IsAtomic (ok r, w')

module _ {W : Type 0} (db : Database W) (c : Encoding)
    (encode : ℤ → Float64 → ℤ → ℤ → Result Bytes Bytes) (policy : CombatRewardPolicy)
    (player_id : ℤ) (req : CombatResultReq) where
  replayed-Body :
      (w : W) (x : Result DbError CombatResultResp)
      → Body db c policy player_id req w (replayed req x, w)
  unfolding replayed
  replayed-Body w (ok r) = body_replays refl refl
  replayed-Body w (err e) = fails

  settle_unless_run-Body :
      (w : W) (x : Result DbError CombatSettlement) (w1 : W)
      → w1 ≡ w
      → Body db c policy player_id req w
          (settle_unless_run db c encode policy player_id req (x, w1))
  unfolding settle_unless_run replay
  settle_unless_run-Body w (ok existing) w1 same = rw same (replayed-Body w _)
  settle_unless_run-Body w (err record_not_found) w1 same =
      settle_new-Body db c encode policy player_id req w w1
  settle_unless_run-Body w (err row_not_found) w1 same = fails
  settle_unless_run-Body w (err duplicate_key) w1 same = fails
  settle_unless_run-Body w (err duplicate_settlement) w1 same = fails
  settle_unless_run-Body w (err (db_failed t)) w1 same = fails

  module _ (laws : Transactional db) where
    settle_for-Body :
        (w : W) (x : Result DbError Player) (w1 : W)
        → w1 ≡ w
        → Body db c policy player_id req w (settle_for db c encode policy player_id req (x, w1))
    unfolding settle_for
    settle_for-Body w (err e) w1 same = fails
    settle_for-Body w (ok player) w1 same =
        settle_unless_run-Body w (db.combat_settlements.first (is_run player_id req) w1).0
          (db.combat_settlements.first (is_run player_id req) w1).1
          (laws.reads_settlements (is_run player_id req) w1 ∙ same)

    settle_body-Body :
        (w : W) → Body db c policy player_id req w (settle_body db c encode policy player_id req w)
    unfolding settle_body
    settle_body-Body w =
        settle_for-Body w (db.players.first_locked (λ r. r.id == player_id) w).0
          (db.players.first_locked (λ r. r.id == player_id) w).1
          (laws.reads_players (λ r. r.id == player_id) w)

    replay-IsAtomic :
        (w w1 : W) (x : Result DbError CombatResultResp)
        → w1 ≡ w
        → IsAtomic db c policy player_id req w (replayed req x, w1)
    unfolding replayed
    replay-IsAtomic w w1 (ok r) same = rw same (replays refl refl)
    replay-IsAtomic w w1 (err e) same = rw same refused

    lookup_reply-IsAtomic :
        (w w1 : W) (x : Result DbError CombatSettlement)
        → w1 ≡ w
        → IsAtomic db c policy player_id req w (lookup_reply db c encode policy req (x, w1))
    unfolding lookup_reply replay
    lookup_reply-IsAtomic w w1 (err e) same = rw same refused
    lookup_reply-IsAtomic w w1 (ok existing) same = replay-IsAtomic w w1 _ same

    rolled-IsAtomic :
        (w : W) (e : DbError)
        → IsAtomic db c policy player_id req w
            (settle_after db c encode policy player_id req (err e, w))
    unfolding settle_after
    rolled-IsAtomic w record_not_found = refused
    rolled-IsAtomic w row_not_found = refused
    rolled-IsAtomic w duplicate_key = refused
    rolled-IsAtomic w duplicate_settlement =
        lookup_reply-IsAtomic w (db.combat_settlements.first (is_run player_id req) w).1
          (db.combat_settlements.first (is_run player_id req) w).0
          (laws.reads_settlements (is_run player_id req) w)
    rolled-IsAtomic w (db_failed t) = refused

    kept-IsAtomic :
        (w : W) (r : CombatResultResp) (w' : W)
        → Body db c policy player_id req w (ok r, w')
        → IsAtomic db c policy player_id req w
            (settle_after db c encode policy player_id req (ok r, w'))
    unfolding settle_after
    kept-IsAtomic w r w' (body_replays d i) = replays d i
    kept-IsAtomic w r w' (body_pays a e recorded) = pays a e recorded

    Body-IsAtomic :
        (w : W) (out : Result DbError CombatResultResp × W)
        → Body db c policy player_id req w out
        → settle_body db c encode policy player_id req w ≡ out
        → IsAtomic db c policy player_id req w (
            settle_after db c encode policy player_id req
              (db.transaction (settle_body db c encode policy player_id req) w))
    Body-IsAtomic w (err e', w') fails e =
        rw (laws.rolled_back (settle_body db c encode policy player_id req) w w' e' e)
          (rolled-IsAtomic w e')
    Body-IsAtomic w (ok r, w') b e =
        elim (laws.committed (settle_body db c encode policy player_id req) w w' r e) [
          | inl done ↦ rw done (kept-IsAtomic w r w' b)
          | inr lost ↦ rw lost.1 (rolled-IsAtomic w (db_failed lost.0))
        ]

-- A settlement in MySQL has refused the run and left the database as it was, or has answered a run
-- that was settled before as a duplicate with nothing changed, or has paid by the rules that the
-- archive in memory is settled by, with its rows committed together. This holds of every database
-- whose transactions are rolled back where their body fails.
pub settle-IsAtomic :
    {W : Type 0} (db : Database W) (c : Encoding)
    (encode : ℤ → Float64 → ℤ → ℤ → Result Bytes Bytes) (policy : CombatRewardPolicy)
    (player_id : ℤ) (req : CombatResultReq)
    → Transactional db
    → (w : W)
    → IsAtomic db c policy player_id req w (settle db c encode policy player_id (some req) w)
unfolding settle
settle-IsAtomic db c encode policy player_id req laws w =
    Body-IsAtomic db c encode policy player_id req laws w _
      (settle_body-Body db c encode policy player_id req laws w) refl
