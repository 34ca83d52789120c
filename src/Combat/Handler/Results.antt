-- ===== src/Combat/Handler/Results.antt =====
-- CombatResult of internal/combat/handler.go: the settlement of a run through the service, and the
-- steps of a handler that has none.
pub mod Settled
use game_server_go.Base.{Bool, true, false, Option, none, some, Result, ok, err, if◌then◌else◌}
use game_server_go.Base.Decimal.{format_int}
use game_server_go.Base.Float.{FloatOps, Float64}
use game_server_go.Base.Int.{ℤ, pos, ◌*ℤ◌, ltb_ℤ, wrap32, wrap64}
use game_server_go.Base.Text.{Bytes, utf8}
use game_server_go.Messages.Combat.{CombatResultReq, CombatResultResp}
use game_server_go.Protocol.Errors.{
  GoError, biz, err_internal, err_combat_cheat_detected, err_combat_invalid_result,
}
use game_server_go.Store.Database.{Database, DbError, record_not_found}
use game_server_go.Store.Metadata.{metadata_json}
use game_server_go.Store.MySql
use game_server_go.Store.Redis
use game_server_go.Store.Redis.{Commands}
use game_server_go.Store.Repository.{CombatSettlementRepository}
use game_server_go.Store.Rows.{PlayerStats}
use game_server_go.Combat.Config.{CombatConfig}
use game_server_go.Combat.Validator.{Fault, validate_combat_result}
use game_server_go.Combat.Service.{ServiceError, settle}
use game_server_go.Combat.Handler.Profile.{default_stats}

-- What settles a run: the service, over a repository that may be nil, or MySQL.
pub data Settler (W : Type 0) : Type 0 where
  service : Option (CombatSettlementRepository W) → Settler W
  directly : Database W → Settler W

-- A step whose error is only logged.
when : {A W : Type 0} → Bool → (W → A × W) → W → W
when test step w = let done = step w in if test then done.1 else w

rank_run : {W : Type 0} → FloatOps → Option (Commands W) → ℤ → ℤ → W → W
rank_run ops none uid score w = w
rank_run ops (some redis) uid score w =
    (Redis.update_rank redis ops (pos 1) uid (format_int uid) score w).1

module _ {W : Type 0} (ops : FloatOps) (cfg : CombatConfig) (redis : Option (Commands W)) where
  -- A run that was settled before is not ranked again.
  service_reply :
      ℤ
      → CombatResultReq
      → Result ServiceError CombatResultResp × W
      → Result GoError CombatResultResp × W
  unfolding rank_run
  service_reply uid req (err e, w) = (err (biz err_internal (utf8 "combat settlement failed")), w)
  service_reply uid req (ok response, w) =
      (ok response, if response.duplicate then w else rank_run ops redis uid req.score w)

  best_of : Result DbError PlayerStats × W → ℤ × W
  best_of (ok stats, w) = (stats.best_score, w)
  best_of (err e, w) = (pos 0, w)

  module _ (mysql : Database W) (encode : ℤ → Float64 → ℤ → ℤ → Result Bytes Bytes) where
    created : Option DbError × W → Result GoError (Unit {0}) × W
    created (some e, w) = (err (biz err_internal (utf8 "服务器内部错误")), w)
    created (none, w) = (ok tt, w)

    -- The row of the player, or a new one.
    ensure_stats : ℤ → Result DbError PlayerStats × W → Result GoError (Unit {0}) × W
    unfolding created
    ensure_stats uid (ok stats, w) = (ok tt, w)
    ensure_stats uid (err record_not_found, w) =
        created (MySql.create_player_stats mysql (default_stats cfg uid) w)
    ensure_stats uid (err e, w) = (err (biz err_internal (utf8 "服务器内部错误")), w)

    -- The five updates, each of which may fail without effect on the answer.
    apply_run : ℤ → CombatResultReq → ℤ → ℤ → W → W
    unfolding when
    apply_run uid req gold exp w =
        let w1 = when (ltb_ℤ (pos 0) gold) (MySql.add_player_gold mysql uid gold) w in
        let w2 = when (ltb_ℤ (pos 0) exp) (MySql.add_player_exp mysql uid exp) w1 in
        let w3 =
          when (ltb_ℤ (pos 0) req.kills) (MySql.increment_player_total_kills mysql uid req.kills)
            w2 in
        let w4 = (MySql.increment_player_total_games mysql uid w3).1 in
        (MySql.update_player_best_score mysql uid req.score w4).1

    direct_reply :
        ℤ
        → CombatResultReq
        → ℤ
        → ℤ
        → ℤ
        → Result Bytes Bytes
        → W
        → Result GoError CombatResultResp × W
    unfolding rank_run
    direct_reply uid req gold exp best (err e) w =
        (err (biz err_combat_invalid_result (utf8 "invalid combat metadata")), w)
    direct_reply uid req gold exp best (ok metadata) w =
        let w1 =
          (MySql.create_score_record mysql
            (record {
              id = pos 0;
              player_id = uid;
              score = req.score;
              metadata = metadata;
              created_at = 0;
            })
            w).1 in
        (
          ok (record {
            success = true;
            duplicate = false;
            reward_gold = wrap32 gold;
            reward_exp = wrap32 exp;
            best_score = best;
            archive = none;
            run_id = req.run_id;
          }),
          rank_run ops redis uid req.score w1,
        )

    settle_directly :
        ℤ → CombatResultReq → Result GoError (Unit {0}) × W → Result GoError CombatResultResp × W
    unfolding apply_run best_of direct_reply
    settle_directly uid req (err e, w) = (err e, w)
    settle_directly uid req (ok u, w) =
        let gold = wrap64 (req.kills *ℤ cfg.gold_per_kill) in
        let exp = wrap64 (req.kills *ℤ cfg.exp_per_kill) in
        let best = best_of (MySql.get_player_stats mysql uid (apply_run uid req gold exp w)) in
        direct_reply uid req gold exp best.0 (metadata_json encode req) best.1

  settle_run :
      (ℤ → Float64 → ℤ → ℤ → Result Bytes Bytes)
      → Settler W
      → ℤ
      → CombatResultReq
      → W
      → Result GoError CombatResultResp × W
  unfolding service_reply ensure_stats settle_directly
  settle_run encode (service repository) uid req w =
      service_reply uid req (settle ops (some cfg) repository uid (some req) w)
  settle_run encode (directly mysql) uid req w =
      settle_directly mysql encode uid req
        (ensure_stats mysql encode uid (MySql.get_player_stats mysql uid w))

  answer_checked :
      (Fault → Bytes)
      → (ℤ → Float64 → ℤ → ℤ → Result Bytes Bytes)
      → Settler W
      → ℤ
      → CombatResultReq
      → Option Fault
      → W
      → Result GoError CombatResultResp × W
  unfolding settle_run
  answer_checked fault_text encode settler uid req (some fault) w =
      (err (biz err_combat_cheat_detected (fault_text fault)), w)
  answer_checked fault_text encode settler uid req none w = settle_run encode settler uid req w

  -- Handler.CombatResult; `fault_text` is the text that fmt makes of a fault, `encode` json.Marshal of
  -- the metadata. The second check of a handler without a service repeats the first.
  unfoldable pub combat_result :
      (Fault → Bytes)
      → (ℤ → Float64 → ℤ → ℤ → Result Bytes Bytes)
      → Settler W
      → ℤ
      → CombatResultReq
      → W
      → Result GoError CombatResultResp × W
  unfolding answer_checked
  combat_result fault_text encode settler uid req w =
      answer_checked fault_text encode settler uid req
        (validate_combat_result ops (some req) (some cfg)) w
