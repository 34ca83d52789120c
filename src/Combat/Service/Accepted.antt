-- ===== src/Combat/Service/Accepted.antt =====
-- A run that SettlementService of internal/combat/service.go accepts is settled by its repository.
use game_server_go.Base.{◌≡◌, refl, none, some, ok}
use game_server_go.Base.Int.{ℤ}
use game_server_go.Base.Float.{FloatOps}
use game_server_go.Messages.Combat.{CombatResultReq, CombatResultResp}
use game_server_go.Store.Repository.{CombatSettlementRepository}
use game_server_go.Combat.Config.{CombatConfig}
use game_server_go.Combat.Validator.{validate_combat_result}
use game_server_go.Combat.Service.{settle, settle_checked, of_store}

pub settle_accepted :
    {W : Type 0} (ops : FloatOps) (cfg : CombatConfig) (repository : CombatSettlementRepository W)
    (uid : ℤ) (req : CombatResultReq) (r : CombatResultResp) (w w' : W)
    → validate_combat_result ops (some req) (some cfg) ≡ none
    → repository.settle uid (some req) w ≡ (ok r, w')
    → settle ops (some cfg) (some repository) uid (some req) w ≡ (ok r, w')
unfolding settle
settle_accepted ops cfg repository uid req r w w' valid settled =
    rw (valid, settle_checked, settled, of_store) refl
