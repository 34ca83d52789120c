-- ===== src/Combat/Service/InMemory.antt =====
-- SettlementService of internal/combat/service.go over internal/store/memory_development.go, as the
-- development server runs it.
use game_server_go.Base.{◌≡◌, refl, Option, none, some, Result, ok, err, arith}
use game_server_go.Base.Equality.{int_eq}
use game_server_go.Base.Int.{ℤ, pos, ◌≤ℤ◌, ◌*ℤ◌, max_int32, int_laws}
use game_server_go.Base.Float.{FloatOps, Float64}
use game_server_go.Base.Map.{get}
use game_server_go.Messages.Account.{PlayerArchive}
use game_server_go.Messages.Combat.{CombatResultReq, CombatResultResp}
use game_server_go.Store.Repository.{CombatSettlementRepository, StoreError}
use game_server_go.Store.Settlement.Exact.{IsSound, Settled}
use game_server_go.Store.Settlement.Paid.{IsPaid, settle_archive-Settled}
use game_server_go.Store.Memory.{MemoryStore, key_eq}
use game_server_go.Store.Memory.Settling
use game_server_go.Store.Memory.Settling.{Encoding, key_of, archive_before}
use game_server_go.Store.Memory.Settling.Outcomes.{
  Settles, refused, replayed, settled, settle-Settles,
}
use game_server_go.Combat.Config.{default_combat_config, settlement_reward_policy}
use game_server_go.Combat.Validator.{max_kills}
use game_server_go.Combat.Validator.Accepted.{IsAccepted, validate_combat_result_iff}
use game_server_go.Combat.Service.{settle, settle_checked, of_store, ServiceError}

abbrev pub memory_settlements : Encoding → CombatSettlementRepository MemoryStore
memory_settlements c = record { settle = Settling.settle c }

module _ (c : Encoding) (ops : FloatOps) (uid : ℤ) where
  -- The service as the development server builds it.
  abbrev pub settle_run :
      CombatResultReq → MemoryStore → Result ServiceError CombatResultResp × MemoryStore
  settle_run req s =
      settle ops (some default_combat_config) (some (memory_settlements c)) uid (some req) s

  of_store_ok :
      (out : Result StoreError CombatResultResp × MemoryStore) (r : CombatResultResp)
      → (of_store out).0 ≡ ok r
      → out.0 ≡ ok r
  unfolding of_store
  of_store_ok (ok r0, w) r h = ground arith
  of_store_ok (err e, w) r h = absurd (ground arith)

  module _ (req : CombatResultReq) (s : MemoryStore) (r : CombatResultResp) where
    settle_checked_ok :
        (fault : Option _)
        → (settle_checked (memory_settlements c) uid (some req) fault s).0 ≡ ok r
        → (fault ≡ none) × ((Settling.settle c uid (some req) s).0 ≡ ok r)
    unfolding settle_checked of_store
    settle_checked_ok (some fault) h = absurd (ground arith)
    settle_checked_ok none h = (refl, of_store_ok (Settling.settle c uid (some req) s) r h)

    -- A run that was settled has passed the check.
    settle_run_ok :
        (settle_run req s).0 ≡ ok r
        → IsAccepted ops default_combat_config req × ((Settling.settle c uid (some req) s).0 ≡ ok r)
    unfolding settle
    settle_run_ok h =
        let (valid, paid) = settle_checked_ok _ h in
        ((validate_combat_result_iff ops default_combat_config req).0 valid, paid)

  accepted-IsPaid :
      (req : CombatResultReq)
      → ((x : Float64) → ops.to_int32 x ≤ℤ max_int32)
      → IsAccepted ops default_combat_config req
      → IsPaid req (settlement_reward_policy default_combat_config)
  unfolding max_kills
  accepted-IsPaid req int32 a = record {
    kills_range = (a.kills_range.0, omega (int_laws, a.kills_range.1, int32 _));
    gold_range = (omega int_laws, omega int_laws);
    exp_range = (omega int_laws, omega int_laws);
  }

  first_outcome :
      {req : CombatResultReq} {s : MemoryStore}
      {out : Result StoreError CombatResultResp × MemoryStore}
      → Settles c uid req s out
      → (a : PlayerArchive) (r : CombatResultResp) → out.0 ≡ ok r
      → get (key_of uid req) s.settlements ≡ none
      → archive_before c (get uid s.archives_by_uid) ≡ ok a
      → s.settlement_policy ≡ settlement_reward_policy default_combat_config
      → IsSound a
      → IsPaid req (settlement_reward_policy default_combat_config)
      → Settled a req (req.kills *ℤ pos 5) (req.kills *ℤ pos 10) r
  first_outcome (refused e) a r done fresh before policy sound paid = absurd (ground arith)
  first_outcome (replayed b r0 found decoded) a r done fresh before policy sound paid =
      absurd (ground arith)
  first_outcome {req} (settled a0 r0 ab rb new start pays e1 e2) a r done fresh before policy sound
        paid =
      settle_archive-Settled a req (settlement_reward_policy default_combat_config) r sound paid cc

  -- A run that the service settles for the first time, from a sound archive, on a store with the
  -- rates of the default configuration, pays 5 gold and 10 experience for each kill, exactly. The
  -- conversion to int32 must not exceed int32.
  pub settle_run-Settled :
      (req : CombatResultReq) (s : MemoryStore) (a : PlayerArchive) (r : CombatResultResp)
      → ((x : Float64) → ops.to_int32 x ≤ℤ max_int32)
      → s.settlement_policy ≡ settlement_reward_policy default_combat_config
      → get (key_of uid req) s.settlements ≡ none
      → archive_before c (get uid s.archives_by_uid) ≡ ok a
      → IsSound a
      → (settle_run req s).0 ≡ ok r
      → Settled a req (req.kills *ℤ pos 5) (req.kills *ℤ pos 10) r
  settle_run-Settled req s a r int32 policy fresh before sound done =
      let (valid, paid) = settle_run_ok req s r done in
      first_outcome (settle-Settles c uid req s) a r paid fresh before policy sound
        (accepted-IsPaid req int32 valid)
