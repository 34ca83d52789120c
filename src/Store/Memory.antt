-- ===== src/Store/Memory.antt =====
-- internal/store/memory_development.go: every repository over maps in memory. Each method holds the
-- store's lock from its first access to its last, so a method is one step.
pub mod Agreement
pub mod Players
pub mod Rows
pub mod Settling
use game_server_go.Base.{
  ℕ, ◌≡◌, ◌↔◌, Bool, true, false, ◌&&◌, List, [], Option, none, some, Result, ok, err, Option-cases,
  arith, if◌then◌else◌,
}
use game_server_go.Base.Equality.{Eq, ◌==◌, int_eq, bytes_eq}
use game_server_go.Base.Int.{ℤ, pos, ◌+ℤ◌, ltb_ℤ, wrap64}
use game_server_go.Base.Map.{Map, get, put, delete}
use game_server_go.Base.Text.{Bytes, utf8}
use game_server_go.Messages.Account.{PlayerArchive}
use game_server_go.Messages.Combat.{CombatResultReq, CombatResultResp}
use game_server_go.Store.Repository.{
  Player, Archive, SessionData, StoreError, not_found, failed, Found, CombatRewardPolicy,
}
use game_server_go.Store.Settlement.{settle_archive, fresh_archive, validate_policy}

pub record SettlementKey : Type 0 where
  pub player_id : ℤ
  pub run_id : Bytes

unfoldable pub same_key : SettlementKey → SettlementKey → Bool
same_key a b = if a.player_id == b.player_id then a.run_id == b.run_id else false

pub same_key_iff : (a b : SettlementKey) → (same_key a b ≡ true) ↔ (a ≡ b)
unfolding same_key
same_key_iff a b = (
  λ h. ground (arith, int_eq.beq_iff a.player_id b.player_id, bytes_eq.beq_iff a.run_id b.run_id),
  λ e. ground (arith, int_eq.beq_iff a.player_id b.player_id, bytes_eq.beq_iff a.run_id b.run_id),
)

instance abbrev pub key_eq : Eq SettlementKey
key_eq = record { beq = same_key; beq_iff = same_key_iff }

pub record MemoryStore : Type 0 where
  pub next_player_id : ℤ
  pub players_by_id : Map ℤ Player
  pub player_id_by_open_id : Map Bytes ℤ
  pub sessions_by_uid : Map ℤ SessionData
  pub archives_by_uid : Map ℤ Archive
  pub settlement_policy : CombatRewardPolicy
  pub settlements : Map SettlementKey Bytes
  pub player_levels : Map ℤ ℤ

-- NewMemoryDevelopmentStoreWithSettlementPolicy: an invalid policy panics.
unfoldable pub new_store : CombatRewardPolicy → Result StoreError MemoryStore
new_store policy = elim (validate_policy policy) [
  | some e ↦ err e
  | none ↦ ok (record {
    next_player_id = pos 1;
    players_by_id = [];
    player_id_by_open_id = [];
    sessions_by_uid = [];
    archives_by_uid = [];
    settlement_policy = policy;
    settlements = [];
    player_levels = [];
  })
]

unfoldable pub or_not_found : {A : Type 0} → Option A → Found A
or_not_found none = err not_found
or_not_found (some a) = ok (some a)

unfoldable pub get_player_by_id : ℤ → MemoryStore → Found Player × MemoryStore
unfolding or_not_found
get_player_by_id id s = (or_not_found (get id s.players_by_id), s)

unfoldable pub player_of : Option ℤ → MemoryStore → Found Player
unfolding or_not_found
player_of none s = err not_found
player_of (some id) s = or_not_found (get id s.players_by_id)

unfoldable pub get_player_by_open_id : Bytes → MemoryStore → Found Player × MemoryStore
unfolding player_of
get_player_by_open_id open_id s = (player_of (get open_id s.player_id_by_open_id) s, s)

-- The row under its key, and its key under its open identifier.
unfoldable pub store_player : Player → MemoryStore → MemoryStore
store_player p s = record s {
  players_by_id = put p.id p s.players_by_id;
  player_id_by_open_id = put p.open_id p.id s.player_id_by_open_id;
}

create_with_id : Player → MemoryStore → Result StoreError Player × MemoryStore
unfolding store_player
create_with_id p s =
    (ok p, record (store_player p s) { next_player_id = wrap64 (s.next_player_id +ℤ pos 1) })

-- The caller's player gets the new identifier, so it is returned.
unfoldable pub create_player : Option Player → MemoryStore → Result StoreError Player × MemoryStore
unfolding create_with_id
create_player none s = (err (failed (utf8 "create player: nil player")), s)
create_player (some p) s = elim (get p.open_id s.player_id_by_open_id) [
  | some id ↦ (err (failed (utf8 "player open ID already exists")), s)
  | none ↦ create_with_id (record p { id = s.next_player_id }) s
]

-- The open identifier is indexed for another player.
taken : Option ℤ → ℤ → Bool
taken none id = false
taken (some indexed) id = if indexed == id then false else true

replace_player : Player → Player → MemoryStore → MemoryStore
unfolding store_player
replace_player stored updated s =
    if stored.open_id == updated.open_id
    then store_player updated s
    else store_player updated
        (record s { player_id_by_open_id = delete stored.open_id s.player_id_by_open_id })

update_stored : Player → Option Player → MemoryStore → Option StoreError × MemoryStore
unfolding taken replace_player
update_stored p none s = (some not_found, s)
update_stored p (some stored) s =
    if taken (get p.open_id s.player_id_by_open_id) p.id
    then (some (failed (utf8 "player open ID already exists")), s)
    else (none, replace_player stored p s)

unfoldable pub update_player : Option Player → MemoryStore → Option StoreError × MemoryStore
unfolding update_stored
update_player none s = (some (failed (utf8 "update player: nil player")), s)
update_player (some p) s = update_stored p (get p.id s.players_by_id) s

unfoldable pub set_session : ℤ → Option SessionData → MemoryStore → Option StoreError × MemoryStore
set_session uid none s = (some (failed (utf8 "set session: nil session")), s)
set_session uid (some d) s = (none, record s { sessions_by_uid = put uid d s.sessions_by_uid })

-- A missing session is no error.
unfoldable pub get_session : ℤ → MemoryStore → Found SessionData × MemoryStore
get_session uid s = (ok (get uid s.sessions_by_uid), s)

unfoldable pub del_session : ℤ → MemoryStore → Option StoreError × MemoryStore
del_session uid s = (none, record s { sessions_by_uid = delete uid s.sessions_by_uid })

unfoldable pub get_archive : ℤ → MemoryStore → Found Archive × MemoryStore
unfolding or_not_found
get_archive player_id s = (or_not_found (get player_id s.archives_by_uid), s)

unfoldable pub save_archive : Option Archive → MemoryStore → Option StoreError × MemoryStore
save_archive none s = (some (failed (utf8 "save archive: nil archive")), s)
save_archive (some a) s = (none, record s { archives_by_uid = put a.player_id a s.archives_by_uid })

pub level_or_zero : Option ℤ → ℤ
level_or_zero none = pos 0
level_or_zero (some level) = level

-- m[k] of a map of levels, which is 0 for a missing key.
unfoldable pub level_of : ℤ → MemoryStore → ℤ
unfolding level_or_zero
level_of player_id s = level_or_zero (get player_id s.player_levels)

unfoldable pub get_development_player_level : ℤ → MemoryStore → Result StoreError ℤ × MemoryStore
unfolding level_of
get_development_player_level player_id s =
    (ok (if ltb_ℤ (pos 0) (level_of player_id s) then level_of player_id s else pos 1), s)
