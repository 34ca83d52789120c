-- ===== src/Store/Repository.antt =====
-- internal/store/repository.go and the rows of internal/model: the repositories as interfaces over a
-- state `W`. Their errors are told apart by IsNotFound alone.
use game_server_go.Base.{ℕ, Bool, true, false, Option, Result}
use game_server_go.Base.Int.{ℤ}
use game_server_go.Base.Text.{Bytes}
use game_server_go.Messages.Combat.{CombatResultReq, CombatResultResp}

-- A row of players. Its two times are written by the database alone.
pub record Player : Type 0 where
  pub id : ℤ
  pub open_id : Bytes
  pub nickname : Bytes
  pub avatar_url : Bytes
  pub token : Bytes
  pub best_score : ℤ
  pub created_at : ℕ
  pub updated_at : ℕ

pub record Archive : Type 0 where
  pub id : ℤ
  pub player_id : ℤ
  pub blob : Bytes
  pub created_at : ℕ
  pub updated_at : ℕ

pub record SessionData : Type 0 where
  pub uid : ℤ
  pub nickname : Bytes
  pub token : Bytes

-- An error that wraps ErrNotFound, or another with its text.
pub data StoreError : Type 0 where
  not_found : StoreError
  failed : Bytes → StoreError

-- IsNotFound
unfoldable pub is_not_found : StoreError → Bool
is_not_found not_found = true
is_not_found (failed t) = false

-- A call that returns a pointer and an error: the pointer may be nil beside a nil error.
abbrev pub Found : Type 0 → Type 0
Found A = Result StoreError (Option A)

-- A Player is passed by pointer: `create_player` returns it as the call leaves it.
pub record PlayerRepository (W : Type 0) : Type 0 where
  pub get_player_by_id : ℤ → W → Found Player × W
  pub get_player_by_open_id : Bytes → W → Found Player × W
  pub create_player : Option Player → W → Result StoreError Player × W
  pub update_player : Option Player → W → Option StoreError × W

pub record SessionRepository (W : Type 0) : Type 0 where
  pub set_session : ℤ → Option SessionData → W → Option StoreError × W
  pub get_session : ℤ → W → Found SessionData × W
  pub del_session : ℤ → W → Option StoreError × W

pub record ArchiveRepository (W : Type 0) : Type 0 where
  pub get_archive : ℤ → W → Found Archive × W
  pub save_archive : Option Archive → W → Option StoreError × W

pub record CombatRewardPolicy : Type 0 where
  pub gold_per_kill : ℤ
  pub exp_per_kill : ℤ

pub record CombatSettlementRepository (W : Type 0) : Type 0 where
  pub settle : ℤ → Option CombatResultReq → W → Result StoreError CombatResultResp × W
