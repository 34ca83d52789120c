-- ===== src/Store/Memory/Rows.antt =====
-- Rows of the players of internal/store/memory_development.go: created, and updated in place.
use game_server_go.Base.{◌≡◌, refl, ap, ◌∙◌, false, none, some, ok, arith}
use game_server_go.Base.Equality.{int_eq, bytes_eq, bytes_beq_iff}
use game_server_go.Base.Int.{pos, ◌+ℤ◌, wrap64, eqb_ℤ_iff}
use game_server_go.Base.Map.{get, get-put_self}
use game_server_go.Store.Repository.{Player}
use game_server_go.Store.Memory.{
  MemoryStore, update_player, update_stored, taken, replace_player, store_player, create_player,
  create_with_id,
}

-- The store has the player under its identifier, and the identifier under its open identifier.
pub record IsRow (p : Player) (s : MemoryStore) : Type 0 where
  pub row : get p.id s.players_by_id ≡ some p
  pub key : get p.open_id s.player_id_by_open_id ≡ some p.id

not_taken :
    (p q : Player) (s : MemoryStore)
    → IsRow p s
    → q.id ≡ p.id
    → q.open_id ≡ p.open_id
    → taken (get q.open_id s.player_id_by_open_id) q.id ≡ false
unfolding taken
not_taken p q s at same_id same_key =
    rw (same_key, at.key, taken, same_id) (ground (arith, eqb_ℤ_iff p.id p.id))

-- A row is updated in place, under the same open identifier.
pub update_row :
    (p q : Player) (s : MemoryStore)
    → IsRow p s
    → q.id ≡ p.id
    → q.open_id ≡ p.open_id
    → update_player (some q) s ≡ (none, store_player q s)
unfolding update_player update_stored replace_player
update_row p q s at same_id same_key =
    ap (λ found. update_stored q found s) (ap (λ id. get id s.players_by_id) same_id ∙ at.row)
    ∙ rw (not_taken p q s at same_id same_key) (ground (arith, bytes_beq_iff p.open_id q.open_id))

pub store_player-IsRow : (q : Player) (s : MemoryStore) → IsRow q (store_player q s)
unfolding store_player
store_player-IsRow q s = record {
  row = get-put_self q.id q s.players_by_id;
  key = get-put_self q.open_id q.id s.player_id_by_open_id;
}

-- The store with a player of a new identifier.
abbrev pub created : Player → MemoryStore → MemoryStore
created p s = record (store_player (record p { id = s.next_player_id }) s) {
  next_player_id = wrap64 (s.next_player_id +ℤ pos 1);
}

pub create_row :
    (p : Player) (s : MemoryStore)
    → get p.open_id s.player_id_by_open_id ≡ none
    → create_player (some p) s ≡ (ok (record p { id = s.next_player_id }), created p s)
unfolding create_player create_with_id
create_row p s free = rw (free, create_player) refl

pub created-IsRow :
    (p : Player) (s : MemoryStore) → IsRow (record p { id = s.next_player_id }) (created p s)
created-IsRow p s =
    let at = store_player-IsRow (record p { id = s.next_player_id }) s in
    record { row = at.row; key = at.key }
