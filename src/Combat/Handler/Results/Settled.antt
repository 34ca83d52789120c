-- ===== src/Combat/Handler/Results/Settled.antt =====
-- CombatResult of internal/combat/handler.go for a run that its service settles.
use game_server_go.Base.{
  ◌≡◌, refl, Bool, true, false, Option, none, some, ok, Result, if◌then◌else◌,
}
use game_server_go.Base.Int.{ℤ}
use game_server_go.Base.Float.{FloatOps, Float64}
use game_server_go.Base.Text.{Bytes}
use game_server_go.Messages.Combat.{CombatResultReq, CombatResultResp}
use game_server_go.Store.Repository.{CombatSettlementRepository}
use game_server_go.Combat.Config.{CombatConfig}
use game_server_go.Combat.Validator.{Fault, validate_combat_result}
use game_server_go.Combat.Service
use game_server_go.Combat.Handler.Results.{
  combat_result, answer_checked, settle_run, service_reply, service, rank_run,
}

same_either : {W : Type 0} (b : Bool) (w : W) → (if b then w else w) ≡ w
same_either true w = refl
same_either false w = refl

-- Without Redis nothing is ranked.
pub combat_result_settled :
    {W : Type 0} (ops : FloatOps) (cfg : CombatConfig) (fault_text : Fault → Bytes)
    (encode : ℤ → Float64 → ℤ → ℤ → Result Bytes Bytes)
    (repository : Option (CombatSettlementRepository W)) (uid : ℤ) (req : CombatResultReq)
    (r : CombatResultResp) (w w' : W)
    → validate_combat_result ops (some req) (some cfg) ≡ none
    → Service.settle ops (some cfg) repository uid (some req) w ≡ (ok r, w')
    → combat_result ops cfg none fault_text encode (service repository) uid req w ≡ (ok r, w')
unfolding combat_result rank_run
combat_result_settled ops cfg fault_text encode repository uid req r w w' valid settled =
    rw (valid, answer_checked, settle_run, settled, service_reply, same_either r.duplicate w') refl
