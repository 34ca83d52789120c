-- ===== src/Store/Database.antt =====
-- The calls of gorm that internal/store makes, over a state `W` of the database, as the parameter
-- `Database`. A condition of a query is a test on rows, an assignment a function of rows.
use game_server_go.Base.{
  ℕ, ◌+◌, Bool, List, [], ◌∷◌, Option, none, some, Result, ok, err, if◌then◌else◌,
}
use game_server_go.Base.Text.{Bytes}
use game_server_go.Messages.Combat.{CombatResultResp}
use game_server_go.Store.Repository.{Player, Archive}
use game_server_go.Store.Rows.{
  ScoreRecord, PaymentOrder, PlayerStats, PlayerStyle, CombatSettlement,
}

-- gorm.ErrRecordNotFound, an error that wraps ErrNotFound, a MySQL error of number 1062,
-- errDuplicateCombatSettlement, or another error with its text.
pub data DbError : Type 0 where
  record_not_found row_not_found duplicate_key duplicate_settlement : DbError
  db_failed : Bytes → DbError

-- First, First under FOR UPDATE, Find, Create, Update and Updates with the number of rows affected,
-- Save, Create under ON CONFLICT, and FirstOrCreate.
pub record Table (W R : Type 0) : Type 0 where
  pub first : (R → Bool) → W → Result DbError R × W
  pub first_locked : (R → Bool) → W → Result DbError R × W
  pub find : (R → Bool) → W → Result DbError (List R) × W
  pub create : R → W → Option DbError × W
  pub update : (R → Bool) → (R → R) → W → Result DbError ℕ × W
  pub save : R → W → Option DbError × W
  pub upsert : (R → R → Bool) → (R → R → R) → R → W → Option DbError × W
  pub first_or_create : (R → Bool) → R → W → Option DbError × W

-- `transaction` runs its body between BEGIN and COMMIT, or ROLLBACK where the body fails.
pub record Database (W : Type 0) : Type 0 where
  pub players : Table W Player
  pub archives : Table W Archive
  pub score_records : Table W ScoreRecord
  pub payment_orders : Table W PaymentOrder
  pub player_stats : Table W PlayerStats
  pub player_styles : Table W PlayerStyle
  pub combat_settlements : Table W CombatSettlement
  pub transaction :
      (W → Result DbError CombatResultResp × W) → W → Result DbError CombatResultResp × W

-- The error alone, of a call that returns a value too.
abbrev pub error_of : {A W : Type 0} → Result DbError A × W → Option DbError × W
error_of (ok a, w) = (none, w)
error_of (err e, w) = (some e, w)

-- The next call after one that may return an error.
unfoldable pub then_ok :
    {A W : Type 0} → Option DbError × W → (W → Result DbError A × W) → Result DbError A × W
then_ok (none, w) k = k w
then_ok (some e, w) k = (err e, w)

-- The next call after one that returns a value or an error.
unfoldable pub then_value :
    {A B W : Type 0} → Result DbError A × W → (A → W → Result DbError B × W) → Result DbError B × W
then_value (ok a, w) k = k a w
then_value (err e, w) k = (err e, w)

-- The first row that a test holds of.
unfoldable pub first_row : {R : Type 0} → (R → Bool) → List R → Option R
first_row p [] = none
first_row p (r ∷ rs) = if p r then some r else first_row p rs

-- UPDATE … SET … WHERE.
unfoldable pub update_rows : {R : Type 0} → (R → Bool) → (R → R) → List R → List R
update_rows p f [] = []
update_rows p f (r ∷ rs) = (if p r then f r else r) ∷ update_rows p f rs

unfoldable pub affected : {R : Type 0} → (R → Bool) → List R → ℕ
affected p [] = 0
affected p (r ∷ rs) = let rest = affected p rs in if p r then 1 + rest else rest
