-- ===== src/Probe/Link/Expected.antt =====
-- The session that cmd/devprobe/main.go plays, with the development server's answers.
use game_server_go.Base.{◌≡◌, refl, true, false, [], ◌∷◌, some, ok, arith}
use game_server_go.Base.Equality.{int_eq, bytes_eq}
use game_server_go.Base.Int.{ℤ, pos, ◌+ℤ◌, ◌-ℤ◌, ◌*ℤ◌, ltb_ℤ, leb_ℤ, eqb_ℤ, wrap32, wrap64}
use game_server_go.Base.Map.{get, get-put_self}
use game_server_go.Base.Text.{Bytes}
use game_server_go.Messages.Account.{PlayerArchive}
use game_server_go.Messages.Combat.{CombatResultReq, CombatResultResp}
use game_server_go.Store.Settlement.{settle_archive, credit}
use game_server_go.Store.Memory.{MemoryStore, key_eq}
use game_server_go.Store.Memory.Settling.{key_of, record_settlement, raise_level}
use game_server_go.Combat.Config.{default_combat_config, settlement_reward_policy}
use game_server_go.Probe.{new_probe_archive, new_probe_combat_result}

-- The archive after the run: 10 gold and 20 experience more for two kills.
abbrev pub paid_archive : PlayerArchive
paid_archive = record {
  schema_version = pos 1;
  gold = pos 17;
  exp = pos 31;
  best_score = pos 123;
  total_kills = pos 19;
  total_games = pos 3;
  highest_cleared_dungeon = pos 4;
  talent_points = pos 5;
  unlocked_styles = pos 1 ∷ pos 3 ∷ [];
  last_style_id = pos 1;
}

-- The answer to the first report of the run, and to the second.
abbrev pub first_settlement : Bytes → CombatResultResp
first_settlement run_id = record {
  success = true;
  duplicate = false;
  reward_gold = pos 10;
  reward_exp = pos 20;
  best_score = pos 123;
  archive = some paid_archive;
  run_id = run_id;
}

abbrev pub second_settlement : Bytes → CombatResultResp
second_settlement run_id = record (first_settlement run_id) { duplicate = true }

pub settle_archive_probe :
    (code : Bytes)
    → settle_archive
        (some new_probe_archive)
        (new_probe_combat_result code)
        (settlement_reward_policy default_combat_config)
      ≡ ok (first_settlement (new_probe_combat_result code).run_id)
unfolding settle_archive credit new_probe_archive new_probe_combat_result wrap32 wrap64 ◌+ℤ◌ ◌-ℤ◌
    ◌*ℤ◌ ltb_ℤ leb_ℤ eqb_ℤ
settle_archive_probe code = refl

-- A settlement leaves the sessions, and stores its response under the run.
module _ (uid : ℤ) (req : CombatResultReq) (archive_bytes response_bytes : Bytes)
    (s : MemoryStore) where
  abbrev settled_store : MemoryStore
  settled_store = record_settlement uid req archive_bytes response_bytes s

  pub record_settlement-sessions : settled_store.sessions_by_uid ≡ s.sessions_by_uid
  unfolding record_settlement raise_level
  record_settlement-sessions = ground arith

  pub record_settlement-run : get (key_of uid req) settled_store.settlements ≡ some response_bytes
  unfolding record_settlement
  record_settlement-run = get-put_self (key_of uid req) response_bytes _
