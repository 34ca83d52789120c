-- ===== src/Examples/Storage.antt =====
-- Players, settlements and logins in the store in memory.
use game_server_go.Base.{◌≡◌, ◌↔◌, refl, true, false, [], ◌∷◌, none, some, ok, err}
use game_server_go.Base.Equality.{int_eq, bytes_beq}
use game_server_go.Base.Int.{
  pos, negsuc, ◌+ℤ◌, ◌-ℤ◌, ◌*ℤ◌, ◌<ℤ◌, int_laws, max_int32, ltb_ℤ, leb_ℤ, eqb_ℤ, wrap32, wrap64,
}
use game_server_go.Base.Float.{FloatOps, is_nan, is_inf, float_lt}
use game_server_go.Base.Map.{get}
use game_server_go.Base.Text.{utf8, trim_space}
use game_server_go.Messages.Account.{PlayerArchive}
use game_server_go.Messages.Combat.{CombatResultReq, CombatResultResp}
use game_server_go.Store.Repository.{Player, StoreError, CombatRewardPolicy}
use game_server_go.Store.Settlement.{validate_policy, credit, settle_archive, fresh_archive}
use game_server_go.Store.Settlement.Exact.{IsSound, Fits, Settled}
use game_server_go.Store.Settlement.Paid.{IsPaid, settle_archive_iff, settle_archive-Settled}
use game_server_go.Store.Settlement.Limits.{settle_archive_negative_total}
use game_server_go.Store.Memory.{MemoryStore, new_store, create_player, update_player}
use game_server_go.Store.Memory.Players.{
  IsIndexed, create_player-IsIndexed, update_player-IsIndexed,
}
use game_server_go.Store.Memory.Settling.{Encoding, settle, archive_before}
use game_server_go.Store.Memory.Settling.Outcomes.{settle-settle}
use game_server_go.Store.Memory.Settling.Stored.{Stores, settle-Stores}
use game_server_go.Login.Service.{fresh_player}
use game_server_go.Login.Service.InMemory.{LogsInTwice, login-login}
use game_server_go.Combat.Config.{default_combat_config, settlement_reward_policy}
use game_server_go.Combat.Validator.{validate_combat_result}
use game_server_go.Combat.Validator.Accepted.{IsAccepted, validate_combat_result_iff}
use game_server_go.Combat.Service
use game_server_go.Combat.Service.InMemory.{settle_run, settle_run-Settled}

abbrev pub empty_store : MemoryStore
empty_store = record {
  next_player_id = pos 1;
  players_by_id = [];
  player_id_by_open_id = [];
  sessions_by_uid = [];
  archives_by_uid = [];
  settlement_policy = settlement_reward_policy default_combat_config;
  settlements = [];
  player_levels = [];
}

new_store_test : new_store (settlement_reward_policy default_combat_config) ≡ ok empty_store
unfolding new_store validate_policy ltb_ℤ
new_store_test = refl

empty_store-IsIndexed : IsIndexed empty_store
unfolding get
empty_store-IsIndexed = record {
  agree = record { by_id = λ id p at. absurd cc; by_open_id = λ o id at. absurd cc };
  bounded = λ id p at. absurd cc;
  next_positive = omega int_laws;
}

created_store-IsIndexed :
    IsIndexed (create_player (some (fresh_player (utf8 "dev:a"))) empty_store).1
created_store-IsIndexed =
    create_player-IsIndexed (some (fresh_player (utf8 "dev:a"))) empty_store empty_store-IsIndexed
      (omega int_laws)

update_player-IsIndexed_example :
    IsIndexed
      (update_player
        (some (record (fresh_player (utf8 "dev:b")) { id = pos 1 }))
        (create_player (some (fresh_player (utf8 "dev:a"))) empty_store).1).1
update_player-IsIndexed_example =
    update_player-IsIndexed (some (record (fresh_player (utf8 "dev:b")) { id = pos 1 }))
      (create_player (some (fresh_player (utf8 "dev:a"))) empty_store).1 created_store-IsIndexed

login-login_example :
    (p : Player) × LogsInTwice (utf8 "dev:a") (utf8 "t1") (utf8 "t2") empty_store p
login-login_example =
    login-login (utf8 "dev:a") (utf8 "t1") (utf8 "t2") empty_store empty_store-IsIndexed

abbrev pub victory : CombatResultReq
victory = record {
  run_id = utf8 "run-1";
  dungeon_level = pos 2;
  score = pos 900;
  kills = pos 12;
  survival_time = 0x4059_0000_0000_0000;
  style_id = pos 1;
  outcome = pos 1;
  player_level = pos 3;
}

abbrev pub policy : CombatRewardPolicy
policy = settlement_reward_policy default_combat_config

abbrev settled_archive : PlayerArchive
settled_archive = record fresh_archive {
  gold = pos 60;
  exp = pos 120;
  best_score = pos 900;
  total_kills = pos 12;
  total_games = pos 1;
  highest_cleared_dungeon = pos 2;
  last_style_id = pos 1;
}

abbrev pub first_answer : CombatResultResp
first_answer = record {
  success = true;
  duplicate = false;
  reward_gold = pos 60;
  reward_exp = pos 120;
  best_score = pos 900;
  archive = some settled_archive;
  run_id = utf8 "run-1";
}

settles_test : settle_archive (some fresh_archive) victory policy ≡ ok first_answer
unfolding settle_archive ltb_ℤ eqb_ℤ leb_ℤ wrap64 wrap32 ◌*ℤ◌ ◌+ℤ◌ ◌-ℤ◌ credit
settles_test = refl

fresh_archive-IsSound : IsSound fresh_archive
fresh_archive-IsSound = record {
  gold_range = (omega int_laws, omega int_laws);
  exp_range = (omega int_laws, omega int_laws);
  kills_range = (omega int_laws, omega int_laws);
  games_range = (omega int_laws, omega int_laws);
}

victory-IsPaid : IsPaid victory policy
victory-IsPaid = record {
  kills_range = (omega int_laws, omega int_laws);
  gold_range = (omega int_laws, omega int_laws);
  exp_range = (omega int_laws, omega int_laws);
}

settle_archive_iff_example :
    ((r : CombatResultResp) × (settle_archive (some fresh_archive) victory policy ≡ ok r))
    ↔ Fits fresh_archive victory (pos 60) (pos 120)
unfolding ◌*ℤ◌
settle_archive_iff_example =
    settle_archive_iff fresh_archive victory policy fresh_archive-IsSound victory-IsPaid

settle_archive-Settled_example : Settled fresh_archive victory (pos 60) (pos 120) first_answer
unfolding ◌*ℤ◌
settle_archive-Settled_example =
    settle_archive-Settled fresh_archive victory policy first_answer fresh_archive-IsSound
      victory-IsPaid settles_test

abbrev broken_archive : PlayerArchive
broken_archive = record fresh_archive { total_kills = negsuc 0 }

settle_archive_negative_total_example :
    (broken_archive.total_kills +ℤ victory.kills <ℤ max_int32)
    × (e : StoreError) × (settle_archive (some broken_archive) victory policy ≡ err e)
settle_archive_negative_total_example =
    settle_archive_negative_total broken_archive victory policy (omega int_laws) (omega int_laws)
      (omega int_laws) (omega int_laws)

-- An encoding that knows one answer and one archive.
abbrev pub one_answer : Encoding
one_answer = record {
  marshal_archive = λ a. ok (1 ∷ []);
  unmarshal_archive = λ b. ok settled_archive;
  marshal_response = λ r. ok (2 ∷ []);
  unmarshal_response = λ b. ok first_answer;
}

abbrev again : CombatResultReq
again = record victory { kills = pos 1 }

first_settled : (settle one_answer (pos 4) (some victory) empty_store).0 ≡ ok first_answer
unfolding settle get settle_archive ltb_ℤ eqb_ℤ leb_ℤ wrap64 wrap32 ◌*ℤ◌ ◌+ℤ◌ ◌-ℤ◌ credit
    archive_before
first_settled = refl

settle-settle_example :
    settle one_answer (pos 4) (some again) (settle one_answer (pos 4) (some victory) empty_store).1
    ≡ (
      ok (record first_answer { duplicate = true }),
      (settle one_answer (pos 4) (some victory) empty_store).1,
    )
settle-settle_example =
    settle-settle one_answer (pos 4) victory again empty_store first_answer refl first_settled
      (λ b e. refl)

settle-Stores_example :
    Stores one_answer
      (pos 4)
      victory
      empty_store
      (settle one_answer (pos 4) (some victory) empty_store)
settle-Stores_example = settle-Stores one_answer (pos 4) victory empty_store

-- Conversions that give 9 for every number, so that 12 kills are too many and 9 are not.
abbrev pub nines : FloatOps
nines = record {
  of_int = λ z. 0;
  add = λ x y. 0;
  mul = λ x y. 0;
  to_float32 = λ x. 0;
  of_float32 = λ x. 0;
  to_int32 = λ x. pos 9;
  to_int64 = λ x. pos 9;
}

validate_combat_result_iff_example :
    (validate_combat_result nines (some victory) (some default_combat_config) ≡ none)
    ↔ IsAccepted nines default_combat_config victory
validate_combat_result_iff_example = validate_combat_result_iff nines default_combat_config victory

abbrev nine_kills : CombatResultReq
nine_kills = record victory { kills = pos 9 }

abbrev nine_archive : PlayerArchive
nine_archive = record settled_archive { gold = pos 45; exp = pos 90; total_kills = pos 9 }

abbrev nine_answer : CombatResultResp
nine_answer = record first_answer {
  reward_gold = pos 45;
  reward_exp = pos 90;
  archive = some nine_archive;
}

nine_settled : (settle_run one_answer nines (pos 4) nine_kills empty_store).0 ≡ ok nine_answer
unfolding settle get settle_archive ltb_ℤ eqb_ℤ leb_ℤ wrap64 wrap32 ◌*ℤ◌ ◌+ℤ◌ ◌-ℤ◌ credit
    archive_before Service.settle validate_combat_result bytes_beq trim_space utf8 is_nan is_inf
    float_lt
nine_settled = refl

settle_run-Settled_example : Settled fresh_archive nine_kills (pos 45) (pos 90) nine_answer
unfolding ◌*ℤ◌ get archive_before
settle_run-Settled_example =
    settle_run-Settled one_answer nines (pos 4) nine_kills empty_store fresh_archive nine_answer
      (λ x. omega int_laws) refl refl refl fresh_archive-IsSound nine_settled
