-- ===== src/Combat/Handler.antt =====
-- internal/combat/handler.go: the answers of the combat module. The player of the context's session is
-- the argument `uid`.
pub mod Results
pub mod Profile
pub mod Gold
use game_server_go.Base.{
  Bool, true, false, ◌||◌, List, [], ◌∷◌, Option, none, some, Result, ok, err, if◌then◌else◌,
}
use game_server_go.Base.Float.{FloatOps}
use game_server_go.Base.Int.{ℤ, pos, leb_ℤ, ltb_ℤ, eqb_ℤ, wrap32}
use game_server_go.Base.Text.{utf8}
use game_server_go.Messages.Combat.{
  GetEnemyConfigsResp, GetDungeonConfigReq, GetDungeonConfigResp, GetStyleConfigsResp,
  StyleConfigItem, UnlockStyleReq, UnlockStyleResp,
}
use game_server_go.Protocol.Errors.{
  GoError, biz, err_internal, err_combat_config_not_found, err_combat_style_locked,
  err_combat_insufficient_gold,
}
use game_server_go.Store.Database.{Database, DbError, record_not_found}
use game_server_go.Store.MySql.{get_player_styles, unlock_player_style, deduct_player_gold}
use game_server_go.Store.Rows.{PlayerStats, PlayerStyle}
use game_server_go.Combat.Config.{
  CombatConfig, get_enemy_configs, get_dungeon_config, get_style_configs, get_style_config,
}

-- Handler.GetEnemyConfigs
unfoldable pub enemy_configs : GetEnemyConfigsResp
enemy_configs = record { configs = get_enemy_configs }

-- Handler.GetDungeonConfig
unfoldable pub dungeon_config : FloatOps → GetDungeonConfigReq → Result GoError GetDungeonConfigResp
dungeon_config ops req =
    let cfg = get_dungeon_config ops req.level in
    if leb_ℤ req.level (pos 0)
    then err (biz err_combat_config_not_found (utf8 "无效的地牢等级"))
    else ok (record {
      level = cfg.level;
      room_count = cfg.room_count;
      enemy_density = cfg.enemy_density;
      boss_id = cfg.boss_id;
      enemy_configs = get_enemy_configs;
    })

-- Handler.GetStyleConfigs
unfoldable pub style_configs : GetStyleConfigsResp
style_configs = record { styles = get_style_configs }

-- errors.Is(err, gorm.ErrRecordNotFound)
unfoldable pub is_record_not_found : DbError → Bool
is_record_not_found record_not_found = true
is_record_not_found _ = false

-- The rows of a query, none of them where it failed.
unfoldable pub rows_or_none :
    {W : Type 0} → Result DbError (List PlayerStyle) × W → List PlayerStyle × W
rows_or_none (ok styles, w) = (styles, w)
rows_or_none (err e, w) = ([], w)

unfoldable pub is_unlocked : ℤ → List PlayerStyle → Bool
is_unlocked style_id [] = false
is_unlocked style_id (s ∷ rest) =
    if eqb_ℤ s.style_id style_id then true else is_unlocked style_id rest

-- What a style costs.
unfoldable pub unlock_cost : ℤ → ℤ
unlock_cost style_id = if eqb_ℤ style_id (pos 1) then pos 0 else pos 100

deduct_error : DbError → GoError
unfolding is_record_not_found
deduct_error e =
    if is_record_not_found e
    then biz err_combat_insufficient_gold (utf8 "金币不足")
    else biz err_internal (utf8 "服务器内部错误")

unlock_reply : {W : Type 0} → ℤ → Option DbError × W → Result GoError UnlockStyleResp × W
unlock_reply cost (some e, w) = (err (biz err_internal (utf8 "解锁失败")), w)
unlock_reply cost (none, w) = (ok (record { success = true; gold_cost = wrap32 cost }), w)

module _ {W : Type 0} (mysql : Database W) where
  unlock_paid : ℤ → ℤ → Option DbError × W → Result GoError UnlockStyleResp × W
  unfolding deduct_error unlock_reply
  unlock_paid uid style_id (some e, w) = (err (deduct_error e), w)
  unlock_paid uid style_id (none, w) =
      unlock_reply (unlock_cost style_id) (unlock_player_style mysql uid style_id w)

  -- The gold is taken only where there is a cost.
  unfoldable pub pay : ℤ → ℤ → W → Option DbError × W
  pay uid cost w =
      let paid = deduct_player_gold mysql uid cost w in
      if ltb_ℤ (pos 0) cost then paid else (none, w)

  unlock_new : ℤ → ℤ → List PlayerStyle × W → Result GoError UnlockStyleResp × W
  unfolding is_unlocked unlock_paid
  unlock_new uid style_id (styles, w) =
      let done = unlock_paid uid style_id (pay uid (unlock_cost style_id) w) in
      if is_unlocked style_id styles
      then (ok (record { success = true; gold_cost = pos 0 }), w)
      else done

  unlock_known : ℤ → ℤ → Option StyleConfigItem → W → Result GoError UnlockStyleResp × W
  unfolding unlock_new rows_or_none
  unlock_known uid style_id none w = (err (biz err_combat_style_locked (utf8 "流派不存在")), w)
  unlock_known uid style_id (some s) w =
      unlock_new uid style_id (rows_or_none (get_player_styles mysql uid w))

  -- Handler.UnlockStyle
  unfoldable pub unlock_style : ℤ → UnlockStyleReq → W → Result GoError UnlockStyleResp × W
  unfolding unlock_known
  unlock_style uid req w = unlock_known uid req.style_id (get_style_config req.style_id) w
