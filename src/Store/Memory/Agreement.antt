-- ===== src/Store/Memory/Agreement.antt =====
-- Two lookups that agree: rows by identifier, and identifiers by open identifier. Removing a row with
-- its key, and adding one under fresh keys, keep them in agreement.
use game_server_go.Base.{◌≡◌, inl, inr, Bool-cases, Option, none, some, arith, if◌then◌else◌}
use game_server_go.Base.Equality.{◌==◌, int_eq, bytes_eq, bytes_beq_iff}
use game_server_go.Base.Int.{ℤ, eqb_ℤ_iff}
use game_server_go.Base.Text.{Bytes}
use game_server_go.Store.Repository.{Player}

-- A row stands under its own identifier, and its open identifier leads there; and what an open
-- identifier leads to is a row that has it.
pub record Agrees (rows : ℤ → Option Player) (index : Bytes → Option ℤ) : Type 0 where
  pub by_id : (id : ℤ) (p : Player) → rows id ≡ some p → (p.id ≡ id) × (index p.open_id ≡ some id)
  pub by_open_id :
      (open_id : Bytes) (id : ℤ)
      → index open_id ≡ some id
      → (p : Player) × (rows id ≡ some p) × (p.open_id ≡ open_id)

-- The lookups after `m[k] = v` and after `delete(m, k)`.
abbrev pub rows_with : Player → (ℤ → Option Player) → ℤ → Option Player
rows_with p rows id = if p.id == id then some p else rows id

abbrev pub index_with : Player → (Bytes → Option ℤ) → Bytes → Option ℤ
index_with p index o = if p.open_id == o then some p.id else index o

abbrev pub rows_without : ℤ → (ℤ → Option Player) → ℤ → Option Player
rows_without k rows id = if k == id then none else rows id

abbrev pub index_without : Bytes → (Bytes → Option ℤ) → Bytes → Option ℤ
index_without k index o = if k == o then none else index o

module _ (rows : ℤ → Option Player) (index : Bytes → Option ℤ) (agree : Agrees rows index) where
  -- Adding a row whose two keys are free.
  pub Agrees-with :
      (p : Player)
      → rows p.id ≡ none
      → index p.open_id ≡ none
      → Agrees (rows_with p rows) (index_with p index)
  Agrees-with p free unindexed = record {
    by_id = λ id q at. elim (Bool-cases (p.id == id)) [
      | inl here ↦ ground (arith, eqb_ℤ_iff p.id id, bytes_beq_iff p.open_id q.open_id)
      | inr there ↦ ground (arith, agree.by_id id q, bytes_beq_iff p.open_id q.open_id)
    ];
    by_open_id = λ o id at. elim (Bool-cases (p.open_id == o)) [
      | inl here ↦ (p, ground (arith, eqb_ℤ_iff p.id id), ground (arith, bytes_beq_iff p.open_id o))
      | inr there ↦
          let (q, stored, key) = agree.by_open_id o id (rw there at at) in
          (q, ground (arith, eqb_ℤ_iff p.id id), key)
    ];
  }

  -- Removing a row together with its key.
  pub Agrees-without :
      (id : ℤ) (p : Player)
      → rows id ≡ some p
      → Agrees (rows_without id rows) (index_without p.open_id index)
  Agrees-without id p at = record {
    by_id = λ j q found. elim (Bool-cases (id == j)) [
      | inl here ↦ absurd (ground arith)
      | inr there ↦ ground (
        arith,
        agree.by_id j q,
        agree.by_id id p at,
        bytes_beq_iff p.open_id q.open_id,
        eqb_ℤ_iff id j,
      )
    ];
    by_open_id = λ o j found. elim (Bool-cases (p.open_id == o)) [
      | inl here ↦ absurd (ground arith)
      | inr there ↦
          let (q, stored, key) = agree.by_open_id o j (rw there at found) in
          (q, ground (arith, eqb_ℤ_iff id j, bytes_beq_iff p.open_id o), key)
    ];
  }
