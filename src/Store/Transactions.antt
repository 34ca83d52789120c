-- ===== src/Store/Transactions.antt =====
-- internal/store/mysql_settlement.go: the settlement of a run in one transaction of MySQL. The
-- encodings are parameters.
pub mod Steps
pub mod Atomic
pub mod Replay
use game_server_go.Base.{
  ◌||◌, ◌&&◌, Bool, true, [], ◌++◌, Option, none, some, Result, ok, err, if◌then◌else◌,
}
use game_server_go.Base.Equality.{◌==◌, int_eq, bytes_eq}
use game_server_go.Base.Float.{Float64}
use game_server_go.Base.Int.{ℤ, pos, ◌+ℤ◌, ◌-ℤ◌, ltb_ℤ, eqb_ℤ, wrap32, wrap64, max_int64}
use game_server_go.Base.Text.{Bytes, utf8}
use game_server_go.Messages.Account.{PlayerArchive}
use game_server_go.Messages.Combat.{CombatResultReq, CombatResultResp}
use game_server_go.Store.Database.{
  DbError, record_not_found, row_not_found, duplicate_key, duplicate_settlement, db_failed,
  Database, then_ok, then_value,
}
use game_server_go.Store.Memory.Settling.{Encoding}
use game_server_go.Store.Metadata.{metadata_json}
use game_server_go.Store.MySql.{save_archive_query}
use game_server_go.Store.Repository.{
  Player, Archive, StoreError, not_found, failed, CombatRewardPolicy,
}
use game_server_go.Store.Rows.{PlayerStats, CombatSettlement}
use game_server_go.Store.Settlement.{settle_archive, fresh_archive}

-- The row of a player who has none yet.
unfoldable pub new_stats : ℤ → CombatResultReq → PlayerStats
new_stats player_id req = record {
  id = pos 0;
  player_id = player_id;
  level = req.player_level;
  exp = pos 0;
  gold = pos 0;
  max_hp = pos 100;
  max_stamina = pos 100;
  attack_power = pos 10;
  best_score = pos 0;
  total_kills = pos 0;
  total_games = pos 0;
  created_at = 0;
  updated_at = 0;
}

-- The assignments of updateSettlementStats, which add on 64 bits.
unfoldable pub credit_stats : CombatResultReq → CombatResultResp → PlayerStats → PlayerStats
credit_stats req response s = record s {
  gold = wrap64 (s.gold +ℤ response.reward_gold);
  exp = wrap64 (s.exp +ℤ response.reward_exp);
  total_kills = wrap64 (s.total_kills +ℤ req.kills);
  total_games = wrap64 (s.total_games +ℤ pos 1);
  best_score = if ltb_ℤ s.best_score req.score then req.score else s.best_score;
  level = if ltb_ℤ (wrap32 s.level) req.player_level then req.player_level else s.level;
}

-- The row as it is stored, or the overflow that is refused.
unfoldable pub settled_stats :
    CombatResultReq → CombatResultResp → PlayerStats → Result DbError PlayerStats
unfolding credit_stats
settled_stats req response s =
    if ltb_ℤ max_int64 (wrap64 (s.gold +ℤ response.reward_gold))
      || ltb_ℤ max_int64 (wrap64 (s.exp +ℤ response.reward_exp))
    then err (db_failed (utf8 "store: player stats reward overflow"))
    else if ltb_ℤ (wrap64 (max_int64 -ℤ s.total_kills)) req.kills || eqb_ℤ s.total_games max_int64
    then err (db_failed (utf8 "store: player stats totals overflow"))
    else ok (credit_stats req response s)

-- An error of the shared rules or of an encoding, inside the transaction.
of_rules_error : StoreError → DbError
of_rules_error not_found = row_not_found
of_rules_error (failed t) = db_failed t

of_rules : {A : Type 0} → Result StoreError A → Result DbError A
unfolding of_rules_error
of_rules (ok a) = ok a
of_rules (err e) = err (of_rules_error e)

encoded : {A : Type 0} → Bytes → Result Bytes A → Result DbError A
encoded context (ok a) = ok a
encoded context (err e) = err (db_failed (context ++ e))

replayed : CombatResultReq → Result DbError CombatResultResp → Result DbError CombatResultResp
replayed req (err e) = err e
replayed req (ok r) = ok (record r { duplicate = true; run_id = req.run_id })

-- The test of a row of combat_settlements.
abbrev pub is_run : ℤ → CombatResultReq → CombatSettlement → Bool
is_run player_id req r = (r.player_id == player_id) && (r.run_id == req.run_id)

abbrev pub run_row : ℤ → CombatResultReq → Bytes → CombatSettlement
run_row player_id req bytes = record {
  id = pos 0;
  player_id = player_id;
  run_id = req.run_id;
  response = bytes;
  created_at = 0;
}

-- A missing player wraps ErrNotFound.
locked_error : DbError → DbError
locked_error record_not_found = row_not_found
locked_error e = e

created_error : {W : Type 0} → Option DbError × W → Option DbError × W
created_error (some duplicate_key, w) = (some duplicate_settlement, w)
created_error (some e, w) = (some e, w)
created_error (none, w) = (none, w)

module _ {W : Type 0} (db : Database W) (c : Encoding)
    (encode : ℤ → Float64 → ℤ → ℤ → Result Bytes Bytes) (policy : CombatRewardPolicy) where
  -- decodeSettlementResponse, and what a replay changes of the answer.
  replay : CombatResultReq → CombatSettlement → Result DbError CombatResultResp
  unfolding replayed encoded
  replay req existing = replayed req (
      encoded (utf8 "decode stored settlement response: ") (c.unmarshal_response existing.response))

  decode_stored : Archive → Result DbError PlayerArchive
  unfolding encoded
  decode_stored stored =
      encoded (utf8 "store: malformed settlement archive: ") (c.unmarshal_archive stored.blob)

  archive_of : Result DbError Archive × W → Result DbError PlayerArchive × W
  unfolding decode_stored
  archive_of (err record_not_found, w) = (ok fresh_archive, w)
  archive_of (err e, w) = (err e, w)
  archive_of (ok stored, w) = (decode_stored stored, w)

  -- settlementArchiveFromTransaction
  archive_from_transaction : ℤ → W → Result DbError PlayerArchive × W
  unfolding archive_of
  archive_from_transaction player_id w =
      archive_of (db.archives.first_locked (λ r. r.player_id == player_id) w)

  write_stats :
      (PlayerStats → W → Option DbError × W) → Result DbError PlayerStats → W → Option DbError × W
  write_stats write (err e) w = (some e, w)
  write_stats write (ok s) w = write s w

  stats_updated :
      ℤ → CombatResultReq → CombatResultResp → Result DbError PlayerStats × W → Option DbError × W
  unfolding write_stats settled_stats new_stats
  stats_updated player_id req response (err record_not_found, w) =
      write_stats db.player_stats.create (settled_stats req response (new_stats player_id req)) w
  stats_updated player_id req response (err e, w) = (some e, w)
  stats_updated player_id req response (ok s, w) =
      write_stats db.player_stats.save (settled_stats req response s) w

  -- updateSettlementStats
  update_settlement_stats : ℤ → CombatResultReq → CombatResultResp → W → Option DbError × W
  unfolding stats_updated
  update_settlement_stats player_id req response w =
      stats_updated player_id req response
        (db.player_stats.first_locked (λ r. r.player_id == player_id) w)

  -- The rows of a settlement, in the order of the source.
  record_run : ℤ → CombatResultReq → CombatResultResp → W → Result DbError CombatResultResp × W
  unfolding created_error encoded
  record_run player_id req response w =
      then_value (encoded (utf8 "encode settlement response: ") (c.marshal_response response), w)
        (λ bytes w1.
          then_ok (created_error (db.combat_settlements.create (run_row player_id req bytes) w1))
            (λ w2. (ok response, w2)))

  save_settled_archive :
      ℤ → CombatResultReq → CombatResultResp → W → Result DbError CombatResultResp × W
  unfolding record_run encoded
  save_settled_archive player_id req response w =
      then_value
        (encoded (utf8 "encode settlement archive: ") (c.marshal_archive response.archive), w)
        (λ bytes w1.
          then_ok
            (save_archive_query db
              (record {
                id = pos 0;
                player_id = player_id;
                blob = bytes;
                created_at = 0;
                updated_at = 0;
              })
              w1)
            (record_run player_id req response))

  record_score : ℤ → CombatResultReq → CombatResultResp → W → Result DbError CombatResultResp × W
  unfolding save_settled_archive encoded
  record_score player_id req response w =
      then_value (encoded [] (metadata_json encode req), w)
        (λ metadata w1.
          then_ok
            (db.score_records.create
              (record {
                id = pos 0;
                player_id = player_id;
                score = req.score;
                metadata = metadata;
                created_at = 0;
              })
              w1)
            (save_settled_archive player_id req response))

  pub settle_new : ℤ → CombatResultReq → W → Result DbError CombatResultResp × W
  unfolding archive_from_transaction update_settlement_stats record_score of_rules
  settle_new player_id req w = then_value (archive_from_transaction player_id w) (λ archive w1.
      then_value (of_rules (settle_archive (some archive) req policy), w1)
        (λ response w2.
          then_ok (update_settlement_stats player_id req response w2)
            (record_score player_id req response)))

  settle_unless_run :
      ℤ
      → CombatResultReq
      → Result DbError CombatSettlement × W
      → Result DbError CombatResultResp × W
  unfolding settle_new replay
  settle_unless_run player_id req (ok existing, w) = (replay req existing, w)
  settle_unless_run player_id req (err record_not_found, w) = settle_new player_id req w
  settle_unless_run player_id req (err e, w) = (err e, w)

  settle_for : ℤ → CombatResultReq → Result DbError Player × W → Result DbError CombatResultResp × W
  unfolding settle_unless_run locked_error
  settle_for player_id req (err e, w) = (err (locked_error e), w)
  settle_for player_id req (ok player, w) =
      settle_unless_run player_id req (db.combat_settlements.first (is_run player_id req) w)

  -- The function that Settle passes to Transaction.
  unfoldable pub settle_body : ℤ → CombatResultReq → W → Result DbError CombatResultResp × W
  unfolding settle_for
  settle_body player_id req w =
      settle_for player_id req (db.players.first_locked (λ r. r.id == player_id) w)

  lookup_reply :
      CombatResultReq → Result DbError CombatSettlement × W → Result DbError CombatResultResp × W
  unfolding replay
  lookup_reply req (err e, w) = (err e, w)
  lookup_reply req (ok existing, w) = (replay req existing, w)

  -- After the transaction: a run that another transaction settled meanwhile is looked up.
  settle_after :
      ℤ
      → CombatResultReq
      → Result DbError CombatResultResp × W
      → Result DbError CombatResultResp × W
  unfolding lookup_reply
  settle_after player_id req (err duplicate_settlement, w) =
      lookup_reply req (db.combat_settlements.first (is_run player_id req) w)
  settle_after player_id req (err e, w) = (err e, w)
  settle_after player_id req (ok response, w) = (ok response, w)

  -- Settle of a repository that is not nil.
  unfoldable pub settle : ℤ → Option CombatResultReq → W → Result DbError CombatResultResp × W
  unfolding settle_after settle_body
  settle player_id none w =
      (err (db_failed (utf8 "settle combat: invalid repository or request")), w)
  settle player_id (some req) w =
      settle_after player_id req (db.transaction (settle_body player_id req) w)
