-- ===== src/Store/Memory/Players.antt =====
-- The two player maps of internal/store/memory_development.go agree, whatever is called.
use mathlib.Core.Path.{fun_ext}
use game_server_go.Base.{
  ◌≡◌, refl, sym, ap, ◌∙◌, ◌⊎◌, inl, inr, false, Bool-cases, Option-cases, Option, none, some,
  arith,
}
use game_server_go.Base.Equality.{◌==◌, int_eq, bytes_eq, bytes_beq_iff}
use game_server_go.Base.Int.{ℤ, pos, ◌+ℤ◌, ◌<ℤ◌, wrap64_id, max_int64, int_laws, eqb_ℤ_iff}
use game_server_go.Base.Map.{get, delete, get-put, get-delete}
use game_server_go.Base.Text.{Bytes}
use game_server_go.Store.Repository.{Player}
use game_server_go.Store.Memory.{
  MemoryStore, create_player, create_with_id, update_player, update_stored, taken, replace_player,
  store_player,
}
use game_server_go.Store.Memory.Agreement.{
  Agrees, rows_with, index_with, rows_without, index_without, Agrees-with, Agrees-without,
}

abbrev pub rows_of : MemoryStore → ℤ → Option Player
rows_of s id = get id s.players_by_id

abbrev pub index_of : MemoryStore → Bytes → Option ℤ
index_of s open_id = get open_id s.player_id_by_open_id

-- The two maps agree, and every identifier in use is positive and below the next one.
pub record IsIndexed (s : MemoryStore) : Type 0 where
  pub agree : Agrees (rows_of s) (index_of s)
  pub bounded :
      (id : ℤ) (p : Player)
      → get id s.players_by_id ≡ some p
      → (pos 0 <ℤ id) × (id <ℤ s.next_player_id)
  pub next_positive : pos 0 <ℤ s.next_player_id

-- What `store_player` makes of the two lookups.
rows_of-store_player :
    (p : Player) (s : MemoryStore) → rows_of (store_player p s) ≡ rows_with p (rows_of s)
unfolding store_player
rows_of-store_player p s = fun_ext λ id. get-put p.id id p s.players_by_id

index_of-store_player :
    (p : Player) (s : MemoryStore) → index_of (store_player p s) ≡ index_with p (index_of s)
unfolding store_player
index_of-store_player p s = fun_ext λ o. get-put p.open_id o p.id s.player_id_by_open_id

with_cases :
    (s : MemoryStore) (p : Player) (id : ℤ) (q : Player)
    → get id (store_player p s).players_by_id ≡ some q
    → (id ≡ p.id) ⊎ (get id s.players_by_id ≡ some q)
unfolding store_player
with_cases s p id q at = elim (Bool-cases (p.id == id)) [
  | inl here ↦ inl (sym ((eqb_ℤ_iff p.id id).0 here))
  | inr there ↦ inr (ground (arith, get-put p.id id p s.players_by_id))
]

unused_next :
    (s : MemoryStore)
    → IsIndexed s
    → (id : ℤ) → id ≡ s.next_player_id
    → get id s.players_by_id ≡ none
unused_next s v id fresh = elim (Option-cases (get id s.players_by_id)) [
  | inl e ↦ e
  | inr (q, e) ↦ let b = v.bounded id q e in absurd (omega (arith, rw fresh at b.1))
]

create_with_id-IsIndexed :
    (p : Player) (s : MemoryStore)
    → IsIndexed s
    → s.next_player_id <ℤ max_int64
    → p.id ≡ s.next_player_id
    → get p.open_id s.player_id_by_open_id ≡ none
    → IsIndexed (create_with_id p s).1
unfolding create_with_id
create_with_id-IsIndexed p s v room fresh free =
    let next =
      wrap64_id (s.next_player_id +ℤ pos 1) (omega (int_laws, v.next_positive)) (omega int_laws) in
    record {
      agree =
          rw (rows_of-store_player p s, index_of-store_player p s)
            (Agrees-with (rows_of s) (index_of s) v.agree p (unused_next s v p.id fresh) free);
      bounded = λ id q at. rw next (elim (with_cases s p id q at) [
        | inl here ↦ rw (here, fresh) (v.next_positive, omega int_laws)
        | inr old ↦ let b = v.bounded id q old in (b.0, omega (int_laws, b))
      ]);
      next_positive = rw next (omega (int_laws, v.next_positive));
    }

-- Creating a player keeps the maps in agreement, whether it succeeds or is refused for an open
-- identifier in use, as long as an identifier is left.
pub create_player-IsIndexed :
    (p : Option Player) (s : MemoryStore)
    → IsIndexed s
    → s.next_player_id <ℤ max_int64
    → IsIndexed (create_player p s).1
unfolding create_player
create_player-IsIndexed none s v room = v
create_player-IsIndexed (some p) s v room =
    elim (Option-cases (get p.open_id s.player_id_by_open_id)) [
      | inr (id, e) ↦ rw (e, create_player) v
      | inl free ↦
          rw (free, create_player)
            (create_with_id-IsIndexed (record p { id = s.next_player_id }) s v room refl free)
    ]

-- Overwriting a row: first it goes with its key, then the new one comes under its keys.
overwritten_rows :
    (p : Player) (s : MemoryStore)
    → rows_of (store_player p s) ≡ rows_with p (rows_without p.id (rows_of s))
overwritten_rows p s = rows_of-store_player p s ∙ fun_ext λ id. ground (arith, eqb_ℤ_iff p.id id)

module _ (stored p : Player) (s : MemoryStore) where
  replaced_rows : rows_of (replace_player stored p s) ≡ rows_with p (rows_without p.id (rows_of s))
  unfolding replace_player
  replaced_rows = elim (Bool-cases (stored.open_id == p.open_id)) [
    | inl same ↦ rw same (overwritten_rows p s)
    | inr moved ↦ rw moved (
        overwritten_rows p
          (record s { player_id_by_open_id = delete stored.open_id s.player_id_by_open_id }))
  ]

  replaced_index :
      index_of (replace_player stored p s)
      ≡ index_with p (index_without stored.open_id (index_of s))
  unfolding replace_player
  replaced_index = elim (Bool-cases (stored.open_id == p.open_id)) [
    | inl same ↦ rw same (
        index_of-store_player p s
        ∙ fun_ext λ o. ground (
          arith,
          bytes_beq_iff stored.open_id p.open_id,
          bytes_beq_iff stored.open_id o,
          bytes_beq_iff p.open_id o,
        ))
    | inr moved ↦ rw moved (
        index_of-store_player p
          (record s { player_id_by_open_id = delete stored.open_id s.player_id_by_open_id })
        ∙ fun_ext λ o. ground (arith, get-delete stored.open_id o s.player_id_by_open_id))
  ]

  module _ (agree : Agrees (rows_of s) (index_of s))
      (at : get p.id s.players_by_id ≡ some stored) where
    key_freed :
        taken (get p.open_id s.player_id_by_open_id) p.id ≡ false
        → index_without stored.open_id (index_of s) p.open_id ≡ none
    unfolding taken
    key_freed allowed = elim (Option-cases (get p.open_id s.player_id_by_open_id)) [
      | inl e ↦ ground arith
      | inr (id, e) ↦
          let (q, row, key) = agree.by_open_id p.open_id id e in
          ground (arith, eqb_ℤ_iff id p.id, bytes_beq_iff stored.open_id p.open_id)
    ]

    replace_player-Agrees :
        taken (get p.open_id s.player_id_by_open_id) p.id ≡ false
        → Agrees (rows_of (replace_player stored p s)) (index_of (replace_player stored p s))
    replace_player-Agrees allowed =
        rw (replaced_rows, replaced_index)
          (Agrees-with _ _ (Agrees-without (rows_of s) (index_of s) agree p.id stored at) p
            (ground (arith, eqb_ℤ_iff p.id p.id)) (key_freed allowed))

  replaced_counter : (replace_player stored p s).next_player_id ≡ s.next_player_id
  unfolding replace_player store_player
  replaced_counter = ground arith

replace_player-IsIndexed :
    (stored p : Player) (s : MemoryStore)
    → IsIndexed s
    → get p.id s.players_by_id ≡ some stored
    → taken (get p.open_id s.player_id_by_open_id) p.id ≡ false
    → IsIndexed (replace_player stored p s)
replace_player-IsIndexed stored p s v at allowed = record {
  agree = replace_player-Agrees stored p s v.agree at allowed;
  bounded = λ id q found. rw (replaced_counter stored p s) (elim (Bool-cases (p.id == id)) [
    | inl here ↦ rw (sym ((eqb_ℤ_iff p.id id).0 here)) (v.bounded p.id stored at)
    | inr there ↦ v.bounded id q (ground (arith, ap (λ rows. rows id) (replaced_rows stored p s)))
  ]);
  next_positive = rw (replaced_counter stored p s) v.next_positive;
}

-- Updating a player keeps the maps in agreement: with the same open identifier, with a new one, and
-- where the update is refused.
pub update_player-IsIndexed :
    (p : Option Player) (s : MemoryStore) → IsIndexed s → IsIndexed (update_player p s).1
unfolding update_player update_stored
update_player-IsIndexed none s v = v
update_player-IsIndexed (some p) s v = elim (Option-cases (get p.id s.players_by_id)) [
  | inl e ↦ rw (e, update_stored) v
  | inr (stored, e) ↦ elim (Bool-cases (taken (get p.open_id s.player_id_by_open_id) p.id)) [
    | inl clash ↦ rw (e, update_stored, clash) v
    | inr allowed ↦ rw (e, update_stored, allowed) (replace_player-IsIndexed stored p s v e allowed)
  ]
]
