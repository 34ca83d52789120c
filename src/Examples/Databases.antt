-- ===== src/Examples/Databases.antt =====
-- Settlements and gold in databases of one table.
use game_server_go.Base.{
  sym, Option, ap, ◌∙◌, ◌≡◌, refl, List, [], ◌∷◌, none, some, Result, ok, err, inl,
}
use game_server_go.Base.Equality.{beq_refl}
use game_server_go.Base.Float.{Float64}
use game_server_go.Base.Int.{ℤ, pos, ◌+ℤ◌, ◌-ℤ◌, ◌*ℤ◌, ltb_ℤ, leb_ℤ, eqb_ℤ, wrap32, wrap64}
use game_server_go.Base.Text.{Bytes, utf8}
use game_server_go.Messages.Combat.{CombatResultReq, CombatResultResp}
use game_server_go.Store.Database.{
  DbError, record_not_found, Table, Database, first_row, then_ok, then_value, update_rows, affected,
}
use game_server_go.Store.Rows.{PlayerStats, CombatSettlement}
use game_server_go.Store.Transactions
use game_server_go.Store.MySql.{save_archive_query}
use game_server_go.Store.Metadata.{metadata_json}
use game_server_go.Store.Settlement.{settle_archive, credit}
use game_server_go.Store.Transactions.{is_run, run_row}
use game_server_go.Store.Transactions.Replay.{FindsCreated, IsReplay, settle-IsReplay}
use game_server_go.Store.Transactions.Atomic.{Transactional}
use game_server_go.Combat.Handler.Profile.{empty_stats}
use game_server_go.Login.Service.{fresh_player}
use game_server_go.Examples.Storage.{one_answer, victory, policy, first_answer}

-- A database of one table; the others answer with one row, and what is written to them is lost.
abbrev Stats : Type 0
Stats = List PlayerStats

abbrev answering : {W R : Type 0} → Result DbError R → Table W R
answering row = record {
  first = λ p w. (row, w);
  first_locked = λ p w. (row, w);
  find = λ p w. (ok [], w);
  create = λ r w. (none, w);
  update = λ p f w. (ok 0, w);
  save = λ r w. (none, w);
  upsert = λ p f r w. (none, w);
  first_or_create = λ p r w. (none, w);
}

abbrev stats_table : Table Stats PlayerStats
stats_table = record (answering (err record_not_found)) {
  create = λ r w. (none, r ∷ w);
  update = λ p f w. (ok (affected p w), update_rows p f w);
}

abbrev outcome_of :
    {W : Type 0} → W → Result DbError CombatResultResp × W → Result DbError CombatResultResp × W
outcome_of before (ok r, w) = (ok r, w)
outcome_of before (err e, w) = (err e, before)

abbrev small_database : Database Stats
small_database = record {
  players = answering (ok (fresh_player (utf8 "dev:a")));
  archives = answering (err record_not_found);
  score_records = answering (err record_not_found);
  payment_orders = answering (err record_not_found);
  player_stats = stats_table;
  player_styles = answering (err record_not_found);
  combat_settlements = answering (err record_not_found);
  transaction = λ body w. outcome_of w (body w);
}

abbrev encode_metadata : ℤ → Float64 → ℤ → ℤ → Result Bytes Bytes
encode_metadata kills survival level style = ok (utf8 "{}")

-- A database that keeps the settled runs alone.
abbrev Runs : Type 0
Runs = List CombatSettlement

abbrev row_or_error : {R : Type 0} → Option R → Result DbError R
row_or_error none = err record_not_found
row_or_error (some r) = ok r

abbrev run_database : Database Runs
run_database = record {
  players = answering (ok (fresh_player (utf8 "dev:a")));
  archives = answering (err record_not_found);
  score_records = answering (err record_not_found);
  payment_orders = answering (err record_not_found);
  player_stats = answering (err record_not_found);
  player_styles = answering (err record_not_found);
  combat_settlements = record (answering (err record_not_found)) {
    first = λ p w. (row_or_error (first_row p w), w);
    create = λ r w. (none, r ∷ w);
  };
  transaction = λ body w. outcome_of w (body w);
}

run_database-Transactional : Transactional run_database
run_database-Transactional = record {
  rolled_back = λ body w w' e h. rw h refl;
  committed = λ body w w' r h. rw h (inl refl);
  reads_players = λ p w. refl;
  reads_settlements = λ p w. refl;
}

finds_created :
    (player_id : ℤ) (req : CombatResultReq) (bytes : Bytes) (w : Runs)
    → first_row (is_run player_id req) (run_row player_id req bytes ∷ w)
      ≡ some (run_row player_id req bytes)
unfolding first_row
finds_created player_id req bytes w = rw (beq_refl player_id, beq_refl req.run_id) refl

run_database-FindsCreated : FindsCreated run_database
run_database-FindsCreated = record {
  found = λ player_id req bytes w w' e. (
    run_row player_id req bytes,
    refl,
    ap (λ v. row_or_error (first_row (is_run player_id req) v)) (sym (ap (λ o. o.1) e))
        ∙ ap row_or_error (finds_created player_id req bytes w),
  );
}

abbrev settled_once : Result DbError CombatResultResp × Runs
settled_once =
    Transactions.settle run_database one_answer encode_metadata policy (pos 1) (some victory) []

first_settlement : settled_once ≡ (ok first_answer, settled_once.1)
unfolding Transactions.settle settle_archive ltb_ℤ eqb_ℤ leb_ℤ wrap64 wrap32 ◌*ℤ◌ ◌+ℤ◌ ◌-ℤ◌ credit
    then_ok then_value first_row metadata_json save_archive_query
first_settlement = refl

settle-IsReplay_example : IsReplay victory first_answer settled_once.1 (
    Transactions.settle run_database one_answer encode_metadata policy
      (pos 1)
      (some victory)
      settled_once.1)
settle-IsReplay_example =
    settle-IsReplay run_database one_answer encode_metadata policy (pos 1) victory
      run_database-Transactional run_database-FindsCreated first_answer
      (fresh_player (utf8 "dev:a")) [] settled_once.1 first_settlement refl (λ b e. refl) refl

abbrev rich : Stats
rich = record (empty_stats (pos 7)) { gold = pos 150 } ∷ []
