-- ===== src/Store/Transactions/Replay.antt =====
-- A run that internal/store/mysql_settlement.go is asked to settle again.
use mathlib.Core.Path.{subst}
use game_server_go.Base.{
  ◌≡◌, ◌≢◌, refl, sym, ◌∙◌, ap, true, false, inl, inr, none, some, Result, ok, err,
}
use game_server_go.Base.Equality.{◌==◌, int_eq, bytes_eq}
use game_server_go.Base.Float.{Float64}
use game_server_go.Base.Int.{ℤ}
use game_server_go.Base.Text.{Bytes}
use game_server_go.Messages.Combat.{CombatResultReq, CombatResultResp}
use game_server_go.Store.Database.{DbError, db_failed, Database}
use game_server_go.Store.Memory.Settling.{Encoding}
use game_server_go.Store.Repository.{Player, CombatRewardPolicy}
use game_server_go.Store.Rows.{CombatSettlement}
use game_server_go.Store.Transactions.{
  settle, settle_after, settle_body, settle_for, settle_unless_run, replay, replayed, run_row,
  is_run, encoded,
}
use game_server_go.Store.Transactions.Steps.{IsRecorded}
use game_server_go.Store.Transactions.Atomic.{
  Transactional, IsAtomic, refused, replays, pays, settle-IsAtomic,
}

-- A row that was created is the one that its run is found by: the two columns are a unique index.
pub record FindsCreated {W : Type 0} (db : Database W) : Type 0 where
  pub found :
      (player_id : ℤ) (req : CombatResultReq) (bytes : Bytes) (w w' : W)
      → db.combat_settlements.create (run_row player_id req bytes) w ≡ (none, w')
      → (stored : CombatSettlement) × (stored.response ≡ bytes)
        × ((db.combat_settlements.first (is_run player_id req) w').0 ≡ ok stored)

true_not_false : true ≢ false
true_not_false e = absurd cc

module _ {W : Type 0} (req : CombatResultReq) (r : CombatResultResp) (w : W) where
  -- The first answer again, marked, or a COMMIT that failed; nothing has changed.
  pub data IsReplay : Result DbError CombatResultResp × W → Type 0 where
    given : IsReplay (ok (record r { duplicate = true; run_id = req.run_id }), w)
    commit_failed : {t : Bytes} → IsReplay (err (db_failed t), w)

module _ {W : Type 0} (db : Database W) (c : Encoding)
    (encode : ℤ → Float64 → ℤ → ℤ → Result Bytes Bytes) (policy : CombatRewardPolicy)
    (player_id : ℤ) (req : CombatResultReq) where
  replay_lem :
      (r : CombatResultResp) (stored : CombatSettlement)
      → c.unmarshal_response stored.response ≡ ok r
      → replay db c encode policy req stored
        ≡ ok (record r { duplicate = true; run_id = req.run_id })
  unfolding replay encoded replayed
  replay_lem r stored decodes = rw decodes refl

  -- The body on a state where the run is found.
  unless_run_lem :
      (r : CombatResultResp) (stored : CombatSettlement) (x : Result DbError CombatSettlement)
      (w : W)
      → x ≡ ok stored
      → c.unmarshal_response stored.response ≡ ok r
      → settle_unless_run db c encode policy player_id req (x, w)
        ≡ (ok (record r { duplicate = true; run_id = req.run_id }), w)
  unfolding settle_unless_run
  unless_run_lem r stored x w e decodes = rw e (ap (λ a. (a, w)) (replay_lem r stored decodes))

  module _ (laws : Transactional db) where
    for_lem :
        (r : CombatResultResp) (stored : CombatSettlement) (player : Player)
        (x : Result DbError Player) (w w1 : W)
        → x ≡ ok player
        → w1 ≡ w
        → (db.combat_settlements.first (is_run player_id req) w).0 ≡ ok stored
        → c.unmarshal_response stored.response ≡ ok r
        → settle_for db c encode policy player_id req (x, w1)
          ≡ (ok (record r { duplicate = true; run_id = req.run_id }), w)
    unfolding settle_for
    for_lem r stored player x w w1 e same at decodes =
        rw (e, same)
          (unless_run_lem r stored (db.combat_settlements.first (is_run player_id req) w).0
              (db.combat_settlements.first (is_run player_id req) w).1 at decodes
            ∙ ap (λ v. (ok (record r { duplicate = true; run_id = req.run_id }), v))
                (laws.reads_settlements (is_run player_id req) w))

    body_lem :
        (r : CombatResultResp) (stored : CombatSettlement) (player : Player) (w : W)
        → (db.players.first_locked (λ p. p.id == player_id) w).0 ≡ ok player
        → (db.combat_settlements.first (is_run player_id req) w).0 ≡ ok stored
        → c.unmarshal_response stored.response ≡ ok r
        → settle_body db c encode policy player_id req w
          ≡ (ok (record r { duplicate = true; run_id = req.run_id }), w)
    unfolding settle_body
    body_lem r stored player w there at decodes =
        for_lem r stored player (db.players.first_locked (λ p. p.id == player_id) w).0 w
          (db.players.first_locked (λ p. p.id == player_id) w).1 there
          (laws.reads_players (λ p. p.id == player_id) w) at decodes

    found-IsReplay :
        (r : CombatResultResp) (stored : CombatSettlement) (player : Player) (w : W)
        → (db.players.first_locked (λ p. p.id == player_id) w).0 ≡ ok player
        → (db.combat_settlements.first (is_run player_id req) w).0 ≡ ok stored
        → c.unmarshal_response stored.response ≡ ok r
        → IsReplay req r w (settle db c encode policy player_id (some req) w)
    unfolding settle settle_after
    found-IsReplay r stored player w there at decodes =
        elim (laws.committed (settle_body db c encode policy player_id req) w w _
          (body_lem r stored player w there at decodes)) [
            | inl done ↦ rw done given
            | inr lost ↦ rw lost.1 commit_failed
          ]

    -- A settlement that was no replay has recorded its answer.
    recorded_lem :
        (r : CombatResultResp) (w w' : W) {out : Result DbError CombatResultResp × W}
        → IsAtomic db c policy player_id req w out
        → out ≡ (ok r, w')
        → r.duplicate ≡ false
        → IsRecorded db c policy player_id req r w'
    recorded_lem r w w' refused e fresh = absurd cc
    recorded_lem r w w' (replays {r = q} d i) e fresh =
        let same : q ≡ r = cc in
        absurd (true_not_false (sym d ∙ ap (λ x. x.duplicate) same ∙ fresh))
    recorded_lem r w w' (pays {r = q} {w' = v} a paid recorded) e fresh =
        let same : q ≡ r = cc in
        let kept : v ≡ w' = ap (λ o. o.1) e in
        subst (λ x. IsRecorded db c policy player_id req r x) kept
          (subst (λ x. IsRecorded db c policy player_id req x v) same recorded)

    recorded-IsReplay :
        (r : CombatResultResp) (player : Player) (w : W)
        → FindsCreated db
        → ((b : Bytes) → c.marshal_response r ≡ ok b → c.unmarshal_response b ≡ ok r)
        → (db.players.first_locked (λ p. p.id == player_id) w).0 ≡ ok player
        → IsRecorded db c policy player_id req r w
        → IsReplay req r w (settle db c encode policy player_id (some req) w)
    recorded-IsReplay r player w unique decodes there recorded =
        let (stored, same, at) =
          unique.found player_id req recorded.bytes recorded.before w recorded.created in
        found-IsReplay r stored player w there at
          (ap c.unmarshal_response same ∙ decodes recorded.bytes recorded.marshalled)

-- A run that was settled and committed in MySQL, settled again, is answered with the first answer
-- marked as a duplicate, unless COMMIT fails, and the database is as the first settlement left it: if
-- the player's row is still there and the answer's bytes decode to it.
pub settle-IsReplay :
    {W : Type 0} (db : Database W) (c : Encoding)
    (encode : ℤ → Float64 → ℤ → ℤ → Result Bytes Bytes) (policy : CombatRewardPolicy)
    (player_id : ℤ) (req : CombatResultReq)
    → Transactional db
    → FindsCreated db
    → (r : CombatResultResp) (player : Player) (w w' : W)
    → settle db c encode policy player_id (some req) w ≡ (ok r, w')
    → r.duplicate ≡ false
    → ((b : Bytes) → c.marshal_response r ≡ ok b → c.unmarshal_response b ≡ ok r)
    → (db.players.first_locked (λ p. p.id == player_id) w').0 ≡ ok player
    → IsReplay req r w' (settle db c encode policy player_id (some req) w')
settle-IsReplay db c encode policy player_id req laws unique r player w w' first fresh decodes
      there =
    recorded-IsReplay db c encode policy player_id req laws r player w' unique decodes there (
      recorded_lem db c encode policy player_id req laws r w w'
        (settle-IsAtomic db c encode policy player_id req laws w) first fresh)
