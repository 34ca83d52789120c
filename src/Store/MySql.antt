-- ===== src/Store/MySql.antt =====
-- internal/store/mysql.go: the methods of MySQLStore over the calls of a `Database`.
use game_server_go.Base.{ℕ, Bool, ◌&&◌, List, Option, none, some, Result, ok, err, if◌then◌else◌}
use game_server_go.Base.Equality.{◌==◌, nat_eq, int_eq, bytes_eq}
use game_server_go.Base.Int.{ℤ, pos, ◌+ℤ◌, ◌-ℤ◌, ltb_ℤ, leb_ℤ}
use game_server_go.Base.Text.{Bytes, utf8}
use game_server_go.Store.Repository.{Player, Archive}
use game_server_go.Store.Rows.{ScoreRecord, PaymentOrder, PlayerStats, PlayerStyle}
use game_server_go.Store.Database.{
  DbError, record_not_found, row_not_found, db_failed, Database, error_of,
}

unfoldable pub close_after : {E W : Type 0} → (W → Option E × W) → Option E × W → Option E × W
close_after close (none, w) = (none, w)
close_after close (some e, w) = (some e, (close w).1)

-- validateAndCloseOnFailure: what `validate` returned; the error of a close that it caused is dropped.
unfoldable pub validate_and_close_on_failure :
    {E W : Type 0} → (W → Option E × W) → (W → Option E × W) → W → Option E × W
unfolding close_after
validate_and_close_on_failure validate close w = close_after close (validate w)

-- maskPassword
unfoldable pub mask_password : Bytes → Bytes
mask_password dsn = utf8 "***@tcp(***:***)/**"

abbrev pub order_status_pending : ℤ
order_status_pending = pos 0

abbrev pub order_status_paid : ℤ
order_status_paid = pos 1

abbrev pub order_status_delivered : ℤ
order_status_delivered = pos 2

abbrev pub order_status_canceled : ℤ
order_status_canceled = pos 3

abbrev pub order_status_refunded : ℤ
order_status_refunded = pos 4

-- Conditions on the rows of player_stats.
abbrev pub stats_of : ℤ → PlayerStats → Bool
stats_of player_id r = r.player_id == player_id

abbrev pub stats_with_gold : ℤ → ℤ → PlayerStats → Bool
stats_with_gold player_id amount r = (r.player_id == player_id) && leb_ℤ amount r.gold

abbrev pub stats_below : ℤ → ℤ → PlayerStats → Bool
stats_below player_id score r = (r.player_id == player_id) && ltb_ℤ r.best_score score

-- Every column but id and created_at; gorm writes updated_at itself.
abbrev pub assign_player : Player → Player → Player
assign_player p r = record p { id = r.id; created_at = r.created_at; updated_at = r.updated_at }

-- An error where no row was affected.
abbrev pub require_rows : {W : Type 0} → DbError → Result DbError ℕ × W → Option DbError × W
require_rows missing (err e, w) = (some e, w)
require_rows missing (ok n, w) = (if n == 0 then some missing else none, w)

module _ {W : Type 0} (db : Database W) where
  unfoldable pub get_player_by_id : ℤ → W → Result DbError Player × W
  get_player_by_id id w = db.players.first (λ r. r.id == id) w

  unfoldable pub get_player_by_open_id : Bytes → W → Result DbError Player × W
  get_player_by_open_id open_id w = db.players.first (λ r. r.open_id == open_id) w

  unfoldable pub create_player : Player → W → Option DbError × W
  create_player player w = db.players.create player w

  unfoldable pub update_player : Option Player → W → Option DbError × W
  update_player none w = (some (db_failed (utf8 "update player: nil player")), w)
  update_player (some player) w =
      require_rows row_not_found
        (db.players.update (λ r. r.id == player.id) (assign_player player) w)

  unfoldable pub get_archive : ℤ → W → Result DbError Archive × W
  get_archive player_id w = db.archives.first (λ r. r.player_id == player_id) w

  -- saveArchiveQuery: one archive for each player, whose data alone is replaced.
  unfoldable pub save_archive_query : Archive → W → Option DbError × W
  save_archive_query archive w =
      db.archives.upsert (λ new r. r.player_id == new.player_id)
        (λ new r. record r { blob = new.blob }) archive w

  unfoldable pub save_archive : Archive → W → Option DbError × W
  save_archive archive w = save_archive_query archive w

  unfoldable pub create_score_record : ScoreRecord → W → Option DbError × W
  create_score_record r w = db.score_records.create r w

  -- No row is affected where the score is not higher, and that is no error.
  unfoldable pub update_best_score : ℤ → ℤ → W → Option DbError × W
  update_best_score player_id score w = error_of (
      db.players.update (λ r. (r.id == player_id) && ltb_ℤ r.best_score score)
        (λ r. record r { best_score = score }) w)

  unfoldable pub create_order : PaymentOrder → W → Option DbError × W
  create_order order w = db.payment_orders.create order w

  unfoldable pub get_order_by_order_no : Bytes → W → Result DbError PaymentOrder × W
  get_order_by_order_no order_no w = db.payment_orders.first (λ r. r.order_no == order_no) w

  unfoldable pub update_order_status : Bytes → ℤ → W → Option DbError × W
  update_order_status order_no status w =
      error_of (
        db.payment_orders.update (λ r. r.order_no == order_no) (λ r. record r { status = status })
          w)

  unfoldable pub get_player_stats : ℤ → W → Result DbError PlayerStats × W
  get_player_stats player_id w = db.player_stats.first (stats_of player_id) w

  unfoldable pub create_player_stats : PlayerStats → W → Option DbError × W
  create_player_stats stats w = db.player_stats.create stats w

  unfoldable pub update_player_stats : PlayerStats → W → Option DbError × W
  update_player_stats stats w = db.player_stats.save stats w

  unfoldable pub add_player_gold : ℤ → ℤ → W → Option DbError × W
  add_player_gold player_id amount w =
      error_of
        (db.player_stats.update (stats_of player_id) (λ r. record r { gold = r.gold +ℤ amount }) w)

  unfoldable pub add_player_exp : ℤ → ℤ → W → Option DbError × W
  add_player_exp player_id amount w =
      error_of
        (db.player_stats.update (stats_of player_id) (λ r. record r { exp = r.exp +ℤ amount }) w)

  unfoldable pub update_player_best_score : ℤ → ℤ → W → Option DbError × W
  update_player_best_score player_id score w = error_of (
      db.player_stats.update (stats_below player_id score) (λ r. record r { best_score = score }) w)

  unfoldable pub increment_player_total_kills : ℤ → ℤ → W → Option DbError × W
  increment_player_total_kills player_id kills w = error_of (
      db.player_stats.update (stats_of player_id)
        (λ r. record r { total_kills = r.total_kills +ℤ kills }) w)

  unfoldable pub increment_player_total_games : ℤ → W → Option DbError × W
  increment_player_total_games player_id w = error_of (
      db.player_stats.update (stats_of player_id)
        (λ r. record r { total_games = r.total_games +ℤ pos 1 }) w)

  unfoldable pub get_player_styles : ℤ → W → Result DbError (List PlayerStyle) × W
  get_player_styles player_id w = db.player_styles.find (λ r. r.player_id == player_id) w

  unfoldable pub unlock_player_style : ℤ → ℤ → W → Option DbError × W
  unlock_player_style player_id style_id w =
      db.player_styles.first_or_create (λ r. (r.player_id == player_id) && (r.style_id == style_id))
        (record { id = pos 0; player_id = player_id; style_id = style_id; created_at = 0 }) w

  -- Gold that is not there is reported as a missing record.
  unfoldable pub deduct_player_gold : ℤ → ℤ → W → Option DbError × W
  deduct_player_gold player_id amount w = require_rows record_not_found (
      db.player_stats.update (stats_with_gold player_id amount)
        (λ r. record r { gold = r.gold -ℤ amount }) w)
