-- ===== src/Store/Rows.antt =====
-- internal/model: the rows of the tables that only MySQL keeps. The two times of a row are written by
-- the database alone.
use game_server_go.Base.{ℕ}
use game_server_go.Base.Int.{ℤ}
use game_server_go.Base.Text.{Bytes}

pub record ScoreRecord : Type 0 where
  pub id : ℤ
  pub player_id : ℤ
  pub score : ℤ
  pub metadata : Bytes
  pub created_at : ℕ

pub record PaymentOrder : Type 0 where
  pub id : ℤ
  pub order_no : Bytes
  pub player_id : ℤ
  pub product_id : ℤ
  pub amount : ℤ
  pub status : ℤ
  pub created_at : ℕ
  pub updated_at : ℕ

pub record PlayerStats : Type 0 where
  pub id : ℤ
  pub player_id : ℤ
  pub level : ℤ
  pub exp : ℤ
  pub gold : ℤ
  pub max_hp : ℤ
  pub max_stamina : ℤ
  pub attack_power : ℤ
  pub best_score : ℤ
  pub total_kills : ℤ
  pub total_games : ℤ
  pub created_at : ℕ
  pub updated_at : ℕ

pub record PlayerStyle : Type 0 where
  pub id : ℤ
  pub player_id : ℤ
  pub style_id : ℤ
  pub created_at : ℕ

pub record CombatSettlement : Type 0 where
  pub id : ℤ
  pub player_id : ℤ
  pub run_id : Bytes
  pub response : Bytes
  pub created_at : ℕ
