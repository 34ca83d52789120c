-- ===== src/Combat/Handler/Gold.antt =====
-- What UnlockStyle of internal/combat/handler.go does to the gold of the players.
pub mod Debt
use mathlib.Core.Path.{subst}
use game_server_go.Base.{
  ℕ, zero, suc, ◌<◌, ◌≡◌, ◌≢◌, ◌↔◌, refl, ◌∙◌, sym, ap, Bool, true, false, Bool-cases, ◌⊎◌, inl,
  inr, List, [], ◌∷◌, All, Option, none, some, Result, ok, err, ◌&&◌, arith, ◌==◌,
}
use game_server_go.Base.Equality.{int_eq}
use game_server_go.Base.Int.{
  ℤ, pos, ◌-ℤ◌, ◌≤ℤ◌, ltb_ℤ, eqb_ℤ, eqb_ℤ_iff, leb_ℤ_iff, int_laws, wrap32,
}
use game_server_go.Base.Text.{utf8}
use game_server_go.Messages.Combat.{StyleConfigItem, UnlockStyleReq, UnlockStyleResp}
use game_server_go.Protocol.Errors.{GoError, biz, err_internal, err_combat_style_locked}
use game_server_go.Store.Database.{Database, DbError, record_not_found, update_rows, affected}
use game_server_go.Store.MySql.{
  stats_with_gold, deduct_player_gold, require_rows, get_player_styles, unlock_player_style,
}
use game_server_go.Store.Rows.{PlayerStats, PlayerStyle}
use game_server_go.Combat.Config.{get_style_config}
use game_server_go.Combat.Handler.{
  unlock_style, unlock_known, unlock_new, unlock_paid, unlock_reply, pay, unlock_cost, is_unlocked,
  rows_or_none,
}

-- UPDATE as MySQL documents it, for assignments that change each row they match, and the two calls on
-- the other table: `rows` reads player_stats.
pub record StatsRows {W : Type 0} (db : Database W) (rows : W → List PlayerStats) : Type 0 where
  pub update_ok :
      (p : PlayerStats → Bool) (f : PlayerStats → PlayerStats) (w : W) (n : ℕ)
      → (db.player_stats.update p f w).0 ≡ ok n
      → (n ≡ affected p (rows w))
        × (rows (db.player_stats.update p f w).1 ≡ update_rows p f (rows w))
  pub update_err :
      (p : PlayerStats → Bool) (f : PlayerStats → PlayerStats) (w : W) (e : DbError)
      → (db.player_stats.update p f w).0 ≡ err e
      → rows (db.player_stats.update p f w).1 ≡ rows w
  pub find_rows : (p : PlayerStyle → Bool) (w : W) → rows (db.player_styles.find p w).1 ≡ rows w
  pub create_rows :
      (p : PlayerStyle → Bool) (r : PlayerStyle) (w : W)
      → rows (db.player_styles.first_or_create p r w).1 ≡ rows w

-- A hundred gold taken from the player, where there is as much.
unfoldable pub charge : ℤ → List PlayerStats → List PlayerStats
charge uid before =
    update_rows (stats_with_gold uid (pos 100)) (λ r. record r { gold = r.gold -ℤ pos 100 }) before

suc_not_zero : (n : ℕ) → (suc n == 0) ≡ false
suc_not_zero n = ground arith

-- Without a match nothing is updated.
update_rows_none :
    {R : Type 0} (p : R → Bool) (f : R → R) (rs : List R)
    → affected p rs ≡ 0
    → update_rows p f rs ≡ rs
unfolding update_rows affected
update_rows_none p f [] h = refl
update_rows_none p f (r ∷ rs) h = elim (Bool-cases (p r)) [
  | inl is_match ↦ absurd (ground (arith, is_match, h))
  | inr other ↦
      rw other (ap (λ rest. r ∷ rest) (update_rows_none p f rs (ground (arith, other, h))))
]

-- One of the rows is the style's.
abbrev pub HasStyle : ℤ → List PlayerStyle → Type 0
HasStyle style_id [] = ⊥
HasStyle style_id (s ∷ rest) = (s.style_id ≡ style_id) ⊎ HasStyle style_id rest

is_unlocked_iff :
    (style_id : ℤ) (styles : List PlayerStyle)
    → (is_unlocked style_id styles ≡ true) ↔ HasStyle style_id styles
unfolding is_unlocked
is_unlocked_iff style_id [] = (λ h. absurd cc, λ h. absurd h)
is_unlocked_iff style_id (s ∷ rest) =
    let (to, back) = is_unlocked_iff style_id rest in
    (
      λ h. ground (arith, to, eqb_ℤ_iff s.style_id style_id),
      λ h. ground (arith, back, eqb_ℤ_iff s.style_id style_id),
    )

-- `attempt` is the result of the UPDATE that takes the gold, `before` the rows that it finds.
module _ {W : Type 0} (rows : W → List PlayerStats) (uid : ℤ) (before : List PlayerStats)
    (attempt : Result DbError ℕ) where
  -- No row of the player has a hundred gold, or the UPDATE has failed.
  abbrev IsShort : Type 0
  IsShort =
      (affected (stats_with_gold uid (pos 100)) before ≡ 0) ⊎ ((e : DbError) × (attempt ≡ err e))

  -- What the payment has left.
  data Pays : Option DbError × W → Type 0 where
    short : {e : DbError} {w : W} → IsShort → rows w ≡ before → Pays (some e, w)
    takes :
        {w : W}
        → 0 < affected (stats_with_gold uid (pos 100)) before
        → rows w ≡ charge uid before
        → Pays (none, w)

  module _ (style_id : ℤ) (styles : List PlayerStyle) where
    -- What an unlocking of a style that there is has answered and left of the gold that was there before,
    -- where `styles` are the player's.
    pub data IsPriced : Result GoError UnlockStyleResp × W → Type 0 where
      unlocked :
          {w : W}
          → HasStyle style_id styles
          → rows w ≡ before
          → IsPriced (ok (record { success = true; gold_cost = pos 0 }), w)
      free :
          {w : W}
          → style_id ≡ pos 1
          → rows w ≡ before
          → IsPriced (ok (record { success = true; gold_cost = pos 0 }), w)
      unrecorded :
          {w : W}
          → style_id ≡ pos 1
          → (HasStyle style_id styles → ⊥)
          → rows w ≡ before
          → IsPriced (err (biz err_internal (utf8 "解锁失败")), w)
      unpaid :
          {e : GoError} {w : W}
          → style_id ≢ pos 1
          → (HasStyle style_id styles → ⊥)
          → IsShort
          → rows w ≡ before
          → IsPriced (err e, w)
      charged :
          {w : W}
          → style_id ≢ pos 1
          → (HasStyle style_id styles → ⊥)
          → 0 < affected (stats_with_gold uid (pos 100)) before
          → rows w ≡ charge uid before
          → IsPriced (ok (record { success = true; gold_cost = pos 100 }), w)
      lost :
          {w : W}
          → style_id ≢ pos 1
          → (HasStyle style_id styles → ⊥)
          → 0 < affected (stats_with_gold uid (pos 100)) before
          → rows w ≡ charge uid before
          → IsPriced (err (biz err_internal (utf8 "解锁失败")), w)

    free-IsPriced :
        (o : Option DbError) (w : W)
        → style_id ≡ pos 1
        → (HasStyle style_id styles → ⊥)
        → rows w ≡ before
        → IsPriced (unlock_reply (pos 0) (o, w))
    unfolding unlock_reply wrap32
    free-IsPriced none w first fresh same = free first same
    free-IsPriced (some e) w first fresh same = unrecorded first fresh same

    charged-IsPriced :
        (o : Option DbError) (w : W)
        → style_id ≢ pos 1
        → (HasStyle style_id styles → ⊥)
        → 0 < affected (stats_with_gold uid (pos 100)) before
        → rows w ≡ charge uid before
        → IsPriced (unlock_reply (pos 100) (o, w))
    unfolding unlock_reply wrap32
    charged-IsPriced none w later fresh some_row taken = charged later fresh some_row taken
    charged-IsPriced (some e) w later fresh some_row taken = lost later fresh some_row taken

-- What the UPDATE of DeductPlayerGold returns.
abbrev pub deduction : {W : Type 0} → Database W → ℤ → W → Result DbError ℕ
deduction db uid w =
    (db.player_stats.update (stats_with_gold uid (pos 100))
      (λ r. record r { gold = r.gold -ℤ pos 100 }) w).0

module _ {W : Type 0} (db : Database W) (rows : W → List PlayerStats) (laws : StatsRows db rows)
    (uid : ℤ) where
  require_rows-Pays :
      (before : List PlayerStats) (x : Result DbError ℕ) (w : W)
      → ((n : ℕ)
          → x ≡ ok n
          → (n ≡ affected (stats_with_gold uid (pos 100)) before) × (rows w ≡ charge uid before))
      → ((e : DbError) → x ≡ err e → rows w ≡ before)
      → Pays rows uid before x (require_rows record_not_found (x, w))
  unfolding charge
  require_rows-Pays before (err e) w h k = short (inr (e, refl)) (k e refl)
  require_rows-Pays before (ok zero) w h k =
      let none_left = sym (h 0 refl).0 in
      short (inl none_left) ((h 0 refl).1 ∙ update_rows_none _ _ before none_left)
  require_rows-Pays before (ok (suc n)) w h k =
      rw (suc_not_zero n) (takes (omega (arith, (h (suc n) refl).0)) (h (suc n) refl).1)

  deduct-Pays :
      (w : W) → Pays rows uid (rows w) (deduction db uid w) (deduct_player_gold db uid (pos 100) w)
  unfolding deduct_player_gold charge
  deduct-Pays w =
      require_rows-Pays (rows w) (deduction db uid w)
        (db.player_stats.update (stats_with_gold uid (pos 100)) _ w).1
        (laws.update_ok (stats_with_gold uid (pos 100)) _ w)
        (laws.update_err (stats_with_gold uid (pos 100)) _ w)

  unlock_rows : (style_id : ℤ) (w : W) → rows (unlock_player_style db uid style_id w).1 ≡ rows w
  unfolding unlock_player_style
  unlock_rows style_id w = laws.create_rows _ _ w

  found_rows : (w : W) → rows (get_player_styles db uid w).1 ≡ rows w
  unfolding get_player_styles
  found_rows w = laws.find_rows _ w

  unlock_cost-cases :
      (style_id : ℤ)
      → ((style_id ≡ pos 1) × (unlock_cost style_id ≡ pos 0))
        ⊎ ((style_id ≢ pos 1) × (unlock_cost style_id ≡ pos 100))
  unfolding unlock_cost
  unlock_cost-cases style_id = elim (Bool-cases (eqb_ℤ style_id (pos 1))) [
    | inl first ↦ rw first (inl ((eqb_ℤ_iff style_id (pos 1)).0 first, refl))
    | inr later ↦
        rw later (inr (λ e. let first = (eqb_ℤ_iff style_id (pos 1)).1 e in absurd cc, refl))
  ]

  module _ (style_id : ℤ) (styles : List PlayerStyle) (fresh : HasStyle style_id styles → ⊥) where
    paid-IsPriced :
        (before : List PlayerStats) (attempt : Result DbError ℕ) {out : Option DbError × W}
        → style_id ≢ pos 1
        → unlock_cost style_id ≡ pos 100
        → Pays rows uid before attempt out
        → IsPriced rows uid before attempt style_id styles (unlock_paid db uid style_id out)
    unfolding unlock_paid
    paid-IsPriced before attempt later cost (short why same) = unpaid later fresh why same
    paid-IsPriced before attempt later cost (takes {w = w} some_row taken) = rw cost (
        charged-IsPriced rows uid before attempt style_id styles
          (unlock_player_style db uid style_id w).0 (unlock_player_style db uid style_id w).1 later
          fresh some_row (unlock_rows style_id w ∙ taken))

    free_of_charge :
        (w : W)
        → style_id ≡ pos 1
        → unlock_cost style_id ≡ pos 0
        → IsPriced rows uid
            (rows w)
            (deduction db uid w)
            style_id
            styles
            (unlock_paid db uid style_id (pay db uid (pos 0) w))
    unfolding unlock_paid pay ltb_ℤ
    free_of_charge w first cost = rw cost (
        free-IsPriced rows uid (rows w) (deduction db uid w) style_id styles
          (unlock_player_style db uid style_id w).0 (unlock_player_style db uid style_id w).1 first
          fresh (unlock_rows style_id w))

    for_a_hundred :
        (w : W)
        → style_id ≢ pos 1
        → unlock_cost style_id ≡ pos 100
        → IsPriced rows uid
            (rows w)
            (deduction db uid w)
            style_id
            styles
            (unlock_paid db uid style_id (pay db uid (pos 100) w))
    unfolding pay ltb_ℤ
    for_a_hundred w later cost =
        paid-IsPriced (rows w) (deduction db uid w) later cost (deduct-Pays w)

    either_price :
        (w : W)
        → IsPriced rows uid
            (rows w)
            (deduction db uid w)
            style_id
            styles
            (unlock_paid db uid style_id (pay db uid (unlock_cost style_id) w))
    either_price w = elim (unlock_cost-cases style_id) [
      | inl (first, cost) ↦ rw cost (free_of_charge w first cost)
      | inr (later, cost) ↦ rw cost (for_a_hundred w later cost)
    ]

  unlock_new-IsPriced :
      (style_id : ℤ) (styles : List PlayerStyle) (w : W)
      → IsPriced rows uid
          (rows w)
          (deduction db uid w)
          style_id
          styles
          (unlock_new db uid style_id (styles, w))
  unfolding unlock_new
  unlock_new-IsPriced style_id styles w = elim (Bool-cases (is_unlocked style_id styles)) [
    | inl known ↦ rw known (unlocked ((is_unlocked_iff style_id styles).0 known) refl)
    | inr fresh ↦ rw fresh (
        either_price style_id styles
          (λ h. let known = (is_unlocked_iff style_id styles).1 h in absurd cc) w)
  ]

  rows_or_none-same : (x : Result DbError (List PlayerStyle)) (w : W) → (rows_or_none (x, w)).1 ≡ w
  unfolding rows_or_none
  rows_or_none-same (ok styles) w = refl
  rows_or_none-same (err e) w = refl

  -- The player's styles, none where the query fails, and the state after it.
  abbrev pub styles_of : W → List PlayerStyle × W
  styles_of w = rows_or_none (get_player_styles db uid w)

  same_rows : (w : W) → rows (styles_of w).1 ≡ rows w
  same_rows w =
      ap rows (rows_or_none-same (get_player_styles db uid w).0 (get_player_styles db uid w).1)
      ∙ found_rows w

  -- A style that there is not, or one that there is.
  abbrev pub Unlocks : ℤ → W → Result GoError UnlockStyleResp × W → Type 0
  Unlocks style_id w r =
      ((get_style_config style_id ≡ none)
        × (r ≡ (err (biz err_combat_style_locked (utf8 "流派不存在")), w)))
      ⊎ ((s : StyleConfigItem) × (get_style_config style_id ≡ some s)
          × IsPriced rows uid (rows w) (deduction db uid (styles_of w).1) style_id (styles_of w).0
              r)

  unlock_known-Unlocks :
      (style_id : ℤ) (o : Option StyleConfigItem) (w : W)
      → get_style_config style_id ≡ o
      → Unlocks style_id w (unlock_known db uid style_id o w)
  unfolding unlock_known
  unlock_known-Unlocks style_id none w e = inl (e, refl)
  unlock_known-Unlocks style_id (some s) w e = inr (
    s,
    e,
    subst
        (λ b.
          IsPriced rows uid b (deduction db uid (styles_of w).1) style_id (styles_of w).0
            (unlock_new db uid style_id (styles_of w)))
        (same_rows w) (unlock_new-IsPriced style_id (styles_of w).0 (styles_of w).1),
  )

pub unlock_style-Unlocks :
    {W : Type 0} (db : Database W) (rows : W → List PlayerStats) (laws : StatsRows db rows)
    (uid : ℤ) (req : UnlockStyleReq) (w : W)
    → Unlocks db rows laws uid req.style_id w (unlock_style db uid req w)
unfolding unlock_style
unlock_style-Unlocks db rows laws uid req w =
    unlock_known-Unlocks db rows laws uid req.style_id (get_style_config req.style_id) w refl
