-- ===== src/Store/Transactions/Steps.antt =====
-- The steps of a settlement inside the transaction of internal/store/mysql_settlement.go, from the
-- payment to the row that records it.
use game_server_go.Base.{◌≡◌, refl, true, Option, none, some, Result, ok, err}
use game_server_go.Base.Equality.{int_eq}
use game_server_go.Base.Float.{Float64}
use game_server_go.Base.Int.{ℤ}
use game_server_go.Base.Text.{Bytes}
use game_server_go.Messages.Account.{PlayerArchive}
use game_server_go.Messages.Combat.{CombatResultReq, CombatResultResp}
use game_server_go.Store.Database.{
  DbError, record_not_found, row_not_found, duplicate_key, duplicate_settlement, db_failed,
  Database, then_ok, then_value,
}
use game_server_go.Store.Memory.Settling.{Encoding}
use game_server_go.Store.Repository.{StoreError, CombatRewardPolicy}
use game_server_go.Store.Settlement.{settle_archive}
use game_server_go.Store.Transactions.{
  settle_new, of_rules, record_run, run_row, created_error, encoded, save_settled_archive,
  record_score, archive_from_transaction,
}

module _ {W : Type 0} (db : Database W) (c : Encoding) (policy : CombatRewardPolicy) (player_id : ℤ)
    (req : CombatResultReq) where
  -- The bytes of the answer are the last row written.
  pub record IsRecorded (r : CombatResultResp) (w' : W) : Type 0 where
    pub bytes : Bytes
    pub before : W
    pub marshalled : c.marshal_response r ≡ ok bytes
    pub created : db.combat_settlements.create (run_row player_id req bytes) before ≡ (none, w')

  -- Steps after the payment return the response, recorded, or an error.
  data Ends (r : CombatResultResp) : Result DbError CombatResultResp × W → Type 0 where
    stops : {e : DbError} {w' : W} → Ends r (err e, w')
    ends : {w' : W} → IsRecorded r w' → Ends r (ok r, w')

  module _ (w : W) where
    -- What the function inside the transaction has returned: it may fail anywhere.
    pub data Body : Result DbError CombatResultResp × W → Type 0 where
      fails : {e : DbError} {w' : W} → Body (err e, w')
      body_replays :
          {r : CombatResultResp} → r.duplicate ≡ true → r.run_id ≡ req.run_id → Body (ok r, w)
      body_pays :
          {r : CombatResultResp} {w' : W} (a : PlayerArchive)
          → settle_archive (some a) req policy ≡ ok r
          → IsRecorded r w'
          → Body (ok r, w')

  then_ok-Ends :
      (r : CombatResultResp) (o : Option DbError × W) (k : W → Result DbError CombatResultResp × W)
      → ((w : W) → Ends r (k w))
      → Ends r (then_ok o k)
  unfolding then_ok
  then_ok-Ends r (none, w) k h = h w
  then_ok-Ends r (some e, w) k h = stops

  then_value-Ends :
      {A : Type 0} (r : CombatResultResp) (x : Result DbError A × W)
      (k : A → W → Result DbError CombatResultResp × W)
      → ((a : A) (w : W) → Ends r (k a w))
      → Ends r (then_value x k)
  unfolding then_value
  then_value-Ends r (ok a, w) k h = h a w
  then_value-Ends r (err e, w) k h = stops

  created-Ends :
      (r : CombatResultResp) (bytes : Bytes) (w1 : W) (o : Option DbError × W)
      → c.marshal_response r ≡ ok bytes
      → db.combat_settlements.create (run_row player_id req bytes) w1 ≡ o
      → Ends r (then_ok (created_error o) (λ w2. (ok r, w2)))
  unfolding then_ok created_error
  created-Ends r bytes w1 (none, w2) m e =
      ends (record { bytes = bytes; before = w1; marshalled = m; created = e })
  created-Ends r bytes w1 (some record_not_found, w2) m e = stops
  created-Ends r bytes w1 (some row_not_found, w2) m e = stops
  created-Ends r bytes w1 (some duplicate_key, w2) m e = stops
  created-Ends r bytes w1 (some duplicate_settlement, w2) m e = stops
  created-Ends r bytes w1 (some (db_failed t), w2) m e = stops

  encoded-Ends :
      (r : CombatResultResp) (context : Bytes) (x : Result Bytes Bytes) (w : W)
      → c.marshal_response r ≡ x
      → Ends r (
          then_value
            (encoded context x, w)
            (λ bytes w1.
              then_ok
                (created_error (db.combat_settlements.create (run_row player_id req bytes) w1))
                (λ w2. (ok r, w2))))
  unfolding encoded then_value
  encoded-Ends r context (ok bytes) w m =
      created-Ends r bytes w (db.combat_settlements.create (run_row player_id req bytes) w) m refl
  encoded-Ends r context (err t) w m = stops

module _ {W : Type 0} (db : Database W) (c : Encoding)
    (encode : ℤ → Float64 → ℤ → ℤ → Result Bytes Bytes) (policy : CombatRewardPolicy)
    (player_id : ℤ) (req : CombatResultReq) where
  record_run-Ends :
      (r : CombatResultResp) (w : W)
      → Ends db c policy player_id req r (record_run db c encode policy player_id req r w)
  unfolding record_run
  record_run-Ends r w = encoded-Ends db c policy player_id req r _ (c.marshal_response r) w refl

  save_settled_archive-Ends :
      (r : CombatResultResp) (w : W)
      → Ends db c policy player_id req r (save_settled_archive db c encode policy player_id req r w)
  unfolding save_settled_archive
  save_settled_archive-Ends r w =
      then_value-Ends db c policy player_id req r _ _
        (λ b w1. then_ok-Ends db c policy player_id req r _ _ (record_run-Ends r))

  record_score-Ends :
      (r : CombatResultResp) (w : W)
      → Ends db c policy player_id req r (record_score db c encode policy player_id req r w)
  unfolding record_score
  record_score-Ends r w =
      then_value-Ends db c policy player_id req r _ _
        (λ m w1. then_ok-Ends db c policy player_id req r _ _ (save_settled_archive-Ends r))

  Ends-Body :
      (w : W) (a : PlayerArchive) (r : CombatResultResp)
      → settle_archive (some a) req policy ≡ ok r
      → {out : Result DbError CombatResultResp × W} → Ends db c policy player_id req r out
      → Body db c policy player_id req w out
  Ends-Body w a r e stops = fails
  Ends-Body w a r e (ends recorded) = body_pays a e recorded

  -- The payment by the shared rules, and the steps `k` after it.
  paid-Body :
      (w w1 : W) (a : PlayerArchive) (x : Result StoreError CombatResultResp)
      (k : CombatResultResp → W → Result DbError CombatResultResp × W)
      → settle_archive (some a) req policy ≡ x
      → ((r : CombatResultResp) (w2 : W) → Ends db c policy player_id req r (k r w2))
      → Body db c policy player_id req w (then_value (of_rules x, w1) k)
  unfolding of_rules then_value
  paid-Body w w1 a (ok r) k e h = Ends-Body w a r e (h r w1)
  paid-Body w w1 a (err t) k e h = fails

  archived-Body :
      (w : W) (x : Result DbError PlayerArchive × W)
      (k : PlayerArchive → W → Result DbError CombatResultResp × W)
      → ((a : PlayerArchive) (w1 : W) → Body db c policy player_id req w (k a w1))
      → Body db c policy player_id req w (then_value x k)
  unfolding then_value
  archived-Body w (ok a, w1) k h = h a w1
  archived-Body w (err e, w1) k h = fails

  pub settle_new-Body :
      (w w1 : W) → Body db c policy player_id req w (settle_new db c encode policy player_id req w1)
  unfolding settle_new
  settle_new-Body w w1 =
      archived-Body w (archive_from_transaction db c encode policy player_id w1) _ (λ a w2.
        paid-Body w w2 a (settle_archive (some a) req policy) _ refl
          (λ r w3. then_ok-Ends db c policy player_id req r _ _ (record_score-Ends r)))
