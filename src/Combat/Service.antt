-- ===== src/Combat/Service.antt =====
-- internal/combat/service.go: SettlementService over a repository of a state `W`.
pub mod InMemory
pub mod Accepted
use game_server_go.Base.{Option, none, some, Result, ok, err}
use game_server_go.Base.Int.{ℤ}
use game_server_go.Base.Float.{FloatOps}
use game_server_go.Messages.Combat.{CombatResultReq, CombatResultResp}
use game_server_go.Store.Repository.{StoreError, CombatSettlementRepository}
use game_server_go.Combat.Config.{CombatConfig}
use game_server_go.Combat.Validator.{Fault, validate_combat_result}

pub data ServiceError : Type 0 where
  repository_is_nil : ServiceError
  refused : Fault → ServiceError
  store_failed : StoreError → ServiceError

module _ {W : Type 0} where
  of_store : Result StoreError CombatResultResp × W → Result ServiceError CombatResultResp × W
  of_store (ok r, w) = (ok r, w)
  of_store (err e, w) = (err (store_failed e), w)

  settle_checked :
      CombatSettlementRepository W
      → ℤ
      → Option CombatResultReq
      → Option Fault
      → W
      → Result ServiceError CombatResultResp × W
  unfolding of_store
  settle_checked repository uid req (some fault) w = (err (refused fault), w)
  settle_checked repository uid req none w = of_store (repository.settle uid req w)

  -- Settle of a service that is not nil, over a repository that may be.
  unfoldable pub settle :
      FloatOps
      → Option CombatConfig
      → Option (CombatSettlementRepository W)
      → ℤ
      → Option CombatResultReq
      → W
      → Result ServiceError CombatResultResp × W
  unfolding settle_checked
  settle ops cfg none uid req w = (err repository_is_nil, w)
  settle ops cfg (some repository) uid req w =
      settle_checked repository uid req (validate_combat_result ops req cfg) w
