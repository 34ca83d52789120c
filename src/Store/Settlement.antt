-- ===== src/Store/Settlement.antt =====
-- internal/store/settlement.go: what one combat run does to a player's archive.
pub mod Exact
pub mod Paid
pub mod Limits
use game_server_go.Base.{
  ℕ, Bool, true, false, ◌||◌, ◌&&◌, List, [], Option, none, some, Result, ok, err, if◌then◌else◌,
}
use game_server_go.Base.Int.{
  ℤ, pos, ◌+ℤ◌, ◌-ℤ◌, ◌*ℤ◌, ltb_ℤ, eqb_ℤ, wrap32, wrap64, max_int32, max_int64,
}
use game_server_go.Base.Text.{utf8}
use game_server_go.Messages.Account.{PlayerArchive}
use game_server_go.Messages.Combat.{CombatResultReq, CombatResultResp, outcome_victory}
use game_server_go.Store.Repository.{CombatRewardPolicy, StoreError, failed}

-- validateCombatRewardPolicy
unfoldable pub validate_policy : CombatRewardPolicy → Option StoreError
validate_policy policy =
    if ltb_ℤ policy.gold_per_kill (pos 0) || ltb_ℤ policy.exp_per_kill (pos 0)
    then some (failed (utf8 "store: invalid combat reward policy"))
    else none

-- &PlayerArchive{SchemaVersion: 1}
abbrev pub fresh_archive : PlayerArchive
fresh_archive = record {
  schema_version = pos 1;
  gold = pos 0;
  exp = pos 0;
  best_score = pos 0;
  total_kills = pos 0;
  total_games = pos 0;
  highest_cleared_dungeon = pos 0;
  talent_points = pos 0;
  unlocked_styles = [];
  last_style_id = pos 0;
}

-- The assignments to the archive's fields.
unfoldable pub credit : PlayerArchive → CombatResultReq → ℤ → ℤ → PlayerArchive
credit a req gold exp = record a {
  gold = wrap32 (a.gold +ℤ wrap32 gold);
  exp = wrap32 (a.exp +ℤ wrap32 exp);
  total_kills = wrap64 (a.total_kills +ℤ req.kills);
  total_games = wrap64 (a.total_games +ℤ pos 1);
  best_score = if ltb_ℤ a.best_score req.score then req.score else a.best_score;
  highest_cleared_dungeon =
      if eqb_ℤ req.outcome outcome_victory && ltb_ℤ a.highest_cleared_dungeon req.dungeon_level
      then req.dungeon_level
      else a.highest_cleared_dungeon;
  last_style_id = req.style_id;
}

pub settled_response : PlayerArchive → CombatResultReq → ℤ → ℤ → CombatResultResp
settled_response a req gold exp = record {
  success = true;
  duplicate = false;
  reward_gold = wrap32 gold;
  reward_exp = wrap32 exp;
  best_score = a.best_score;
  archive = some a;
  run_id = req.run_id;
}

pub settle_rewards : PlayerArchive → CombatResultReq → ℤ → ℤ → Result StoreError CombatResultResp
unfolding credit settled_response
settle_rewards a req gold exp =
    if ltb_ℤ max_int32 gold || ltb_ℤ max_int32 exp
    then err (failed (utf8 "store: settlement reward overflow"))
    else if ltb_ℤ max_int32 (wrap64 (a.gold +ℤ gold)) || ltb_ℤ max_int32 (wrap64 (a.exp +ℤ exp))
    then err (failed (utf8 "store: archive reward overflow"))
    else if ltb_ℤ (wrap64 (max_int64 -ℤ a.total_kills)) req.kills || eqb_ℤ a.total_games max_int64
    then err (failed (utf8 "store: archive totals overflow"))
    else ok (settled_response (credit a req gold exp) req gold exp)

settle_into :
    PlayerArchive → CombatResultReq → CombatRewardPolicy → Result StoreError CombatResultResp
unfolding settle_rewards
settle_into a req policy =
    settle_rewards a req (wrap64 (req.kills *ℤ policy.gold_per_kill))
      (wrap64 (req.kills *ℤ policy.exp_per_kill))

-- settleArchive: the response holds the archive as it was changed.
unfoldable pub settle_archive :
    Option PlayerArchive → CombatResultReq → CombatRewardPolicy → Result StoreError CombatResultResp
unfolding settle_into
settle_archive none req policy = settle_into fresh_archive req policy
settle_archive (some a) req policy = settle_into a req policy
