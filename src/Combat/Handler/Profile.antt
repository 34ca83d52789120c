-- ===== src/Combat/Handler/Profile.antt =====
-- GetPlayerStats and UpdatePlayerStats of internal/combat/handler.go, with MySQL and in development.
use game_server_go.Base.{
  true, ◌||◌, List, [], ◌∷◌, Option, none, some, Result, ok, err, if◌then◌else◌,
}
use game_server_go.Base.Int.{ℤ, pos, ltb_ℤ, wrap32}
use game_server_go.Base.Text.{Bytes, utf8}
use game_server_go.Messages.Account.{PlayerArchive}
use game_server_go.Messages.Combat.{GetPlayerStatsResp, UpdatePlayerStatsReq, UpdatePlayerStatsResp}
use game_server_go.Protocol.Errors.{GoError, biz, err_internal, err_combat_invalid_result}
use game_server_go.Store.Database.{Database, DbError, record_not_found}
use game_server_go.Store.MySql
use game_server_go.Store.Repository.{Archive, StoreError, is_not_found}
use game_server_go.Store.Rows.{PlayerStats, PlayerStyle}
use game_server_go.Store.Settlement.{fresh_archive}
use game_server_go.Combat.Config.{CombatConfig}

-- &PlayerStats{PlayerID: uid}
abbrev pub empty_stats : ℤ → PlayerStats
empty_stats uid = record {
  id = pos 0;
  player_id = uid;
  level = pos 0;
  exp = pos 0;
  gold = pos 0;
  max_hp = pos 0;
  max_stamina = pos 0;
  attack_power = pos 0;
  best_score = pos 0;
  total_kills = pos 0;
  total_games = pos 0;
  created_at = 0;
  updated_at = 0;
}

-- defaultStats
unfoldable pub default_stats : CombatConfig → ℤ → PlayerStats
default_stats cfg uid = record (empty_stats uid) {
  level = pos 1;
  max_hp = cfg.max_hp;
  max_stamina = cfg.max_stamina;
  attack_power = cfg.base_attack_power;
}

internal_error : GoError
internal_error = biz err_internal (utf8 "服务器内部错误")

style_ids : List PlayerStyle → List ℤ
style_ids [] = []
style_ids (s ∷ rest) = wrap32 s.style_id ∷ style_ids rest

unfoldable pub stats_reply : PlayerStats → List ℤ → GetPlayerStatsResp
stats_reply stats styles = record {
  level = wrap32 stats.level;
  exp = wrap32 stats.exp;
  gold = wrap32 stats.gold;
  max_hp = wrap32 stats.max_hp;
  max_stamina = wrap32 stats.max_stamina;
  attack_power = wrap32 stats.attack_power;
  unlocked_styles = styles;
}

-- The values of a snapshot that are refused, with the message.
unfoldable pub snapshot_fault : UpdatePlayerStatsReq → Option Bytes
snapshot_fault req =
    if ltb_ℤ req.level (pos 1) || ltb_ℤ (pos 1000) req.level
    then some (utf8 "等级数值异常")
    else if ltb_ℤ req.max_hp (pos 1) || ltb_ℤ (pos 100000) req.max_hp
    then some (utf8 "生命值异常")
    else none

unfoldable pub apply_snapshot : UpdatePlayerStatsReq → PlayerStats → PlayerStats
apply_snapshot req stats = record stats {
  level = req.level;
  exp = req.exp;
  gold = req.gold;
  max_hp = req.max_hp;
  max_stamina = req.max_stamina;
  attack_power = req.attack_power;
}

module _ {W : Type 0} (mysql : Database W) where
  -- The styles of a player; one who has none gets the first.
  reply_styles : ℤ → PlayerStats → List ℤ → W → Result GoError GetPlayerStatsResp × W
  unfolding stats_reply
  reply_styles uid stats [] w =
      (ok (stats_reply stats (pos 1 ∷ [])), (MySql.unlock_player_style mysql uid (pos 1) w).1)
  reply_styles uid stats (s ∷ rest) w = (ok (stats_reply stats (s ∷ rest)), w)

  found_styles : Result DbError (List PlayerStyle) × W → List ℤ × W
  unfolding style_ids
  found_styles (ok styles, w) = (style_ids styles, w)
  found_styles (err e, w) = ([], w)

  reply_stats : ℤ → PlayerStats → W → Result GoError GetPlayerStatsResp × W
  unfolding reply_styles found_styles
  reply_stats uid stats w =
      let styles = found_styles (MySql.get_player_styles mysql uid w) in
      reply_styles uid stats styles.0 styles.1

  -- A new player's row is created; an error of that is only logged.
  load_or_default :
      CombatConfig → ℤ → Result DbError PlayerStats × W → Result GoError GetPlayerStatsResp × W
  unfolding reply_stats default_stats internal_error
  load_or_default cfg uid (ok stats, w) = reply_stats uid stats w
  load_or_default cfg uid (err record_not_found, w) =
      reply_stats uid (default_stats cfg uid)
        (MySql.create_player_stats mysql (default_stats cfg uid) w).1
  load_or_default cfg uid (err e, w) = (err internal_error, w)

  stored_profile : CombatConfig → ℤ → W → Result GoError GetPlayerStatsResp × W
  unfolding load_or_default
  stored_profile cfg uid w = load_or_default cfg uid (MySql.get_player_stats mysql uid w)

  -- The styles of a snapshot, each error dropped.
  unlock_all : ℤ → List ℤ → W → W
  unlock_all uid [] w = w
  unlock_all uid (s ∷ rest) w = unlock_all uid rest (MySql.unlock_player_style mysql uid s w).1

  update_reply :
      ℤ → UpdatePlayerStatsReq → Option DbError × W → Result GoError UpdatePlayerStatsResp × W
  unfolding unlock_all
  update_reply uid req (some e, w) = (err (biz err_internal (utf8 "更新失败")), w)
  update_reply uid req (none, w) =
      (ok (record { success = true }), unlock_all uid req.unlocked_styles w)

  update_loaded :
      ℤ
      → UpdatePlayerStatsReq
      → Result DbError PlayerStats × W
      → Result GoError UpdatePlayerStatsResp × W
  unfolding update_reply apply_snapshot internal_error
  update_loaded uid req (ok stats, w) =
      update_reply uid req (MySql.update_player_stats mysql (apply_snapshot req stats) w)
  update_loaded uid req (err record_not_found, w) =
      update_reply uid req
        (MySql.update_player_stats mysql (apply_snapshot req (empty_stats uid)) w)
  update_loaded uid req (err e, w) = (err internal_error, w)

  update_checked :
      ℤ → UpdatePlayerStatsReq → Option Bytes → W → Result GoError UpdatePlayerStatsResp × W
  unfolding update_loaded
  update_checked uid req (some message) w = (err (biz err_combat_invalid_result message), w)
  update_checked uid req none w = update_loaded uid req (MySql.get_player_stats mysql uid w)

  -- Handler.UpdatePlayerStats
  unfoldable pub update_stats :
      ℤ → UpdatePlayerStatsReq → W → Result GoError UpdatePlayerStatsResp × W
  unfolding update_checked snapshot_fault
  update_stats uid req w = update_checked uid req (snapshot_fault req) w

development_reply : CombatConfig → ℤ → PlayerArchive → GetPlayerStatsResp
development_reply cfg level archive = record {
  level = level;
  exp = archive.exp;
  gold = archive.gold;
  max_hp = wrap32 cfg.max_hp;
  max_stamina = wrap32 cfg.max_stamina;
  attack_power = wrap32 cfg.base_attack_power;
  unlocked_styles = archive.unlocked_styles;
}

load_failed : GoError
load_failed = biz err_internal (utf8 "load development stats failed")

-- A player without an archive.
abbrev pub starting_archive : PlayerArchive
starting_archive = record fresh_archive { unlocked_styles = pos 1 ∷ [] }

decoded_reply : CombatConfig → ℤ → Result Bytes PlayerArchive → Result GoError GetPlayerStatsResp
unfolding development_reply
decoded_reply cfg level (err e) = err (biz err_internal (utf8 "decode development stats failed"))
decoded_reply cfg level (ok archive) = ok (development_reply cfg level archive)

module _ {W : Type 0} (unmarshal : Bytes → Result Bytes PlayerArchive) (cfg : CombatConfig) where
  archive_reply : ℤ → Result StoreError Archive × W → Result GoError GetPlayerStatsResp × W
  unfolding decoded_reply development_reply load_failed
  archive_reply level (err e, w) = (
    if is_not_found e then ok (development_reply cfg level starting_archive) else err load_failed,
    w,
  )
  archive_reply level (ok stored, w) = (decoded_reply cfg level (unmarshal stored.blob), w)

  -- The archives may be missing; a repository returns an archive beside a nil error.
  archived_profile :
      Option (ℤ → W → Result StoreError Archive × W)
      → ℤ
      → Result StoreError ℤ × W
      → Result GoError GetPlayerStatsResp × W
  unfolding archive_reply development_reply load_failed
  archived_profile archives uid (err e, w) = (err load_failed, w)
  archived_profile none uid (ok level, w) = (ok (development_reply cfg level starting_archive), w)
  archived_profile (some get_archive) uid (ok level, w) = archive_reply level (get_archive uid w)

  -- getDevelopmentPlayerStats; the levels may be missing too.
  unfoldable pub development_profile :
      Option (ℤ → W → Result StoreError ℤ × W)
      → Option (ℤ → W → Result StoreError Archive × W)
      → ℤ
      → W
      → Result GoError GetPlayerStatsResp × W
  unfolding archived_profile
  development_profile none archives uid w = archived_profile archives uid (ok (pos 1), w)
  development_profile (some get_level) archives uid w =
      archived_profile archives uid (get_level uid w)

  -- Handler.GetPlayerStats
  unfoldable pub player_stats :
      Option (Database W)
      → Option (ℤ → W → Result StoreError ℤ × W)
      → Option (ℤ → W → Result StoreError Archive × W)
      → ℤ
      → W
      → Result GoError GetPlayerStatsResp × W
  unfolding development_profile stored_profile
  player_stats none levels archives uid w = development_profile levels archives uid w
  player_stats (some mysql) levels archives uid w = stored_profile mysql cfg uid w
