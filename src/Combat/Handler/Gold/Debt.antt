-- ===== src/Combat/Handler/Gold/Debt.antt =====
-- UnlockStyle of internal/combat/handler.go leaves no player in debt.
use game_server_go.Base.{
  ℕ, ◌≡◌, Bool, true, false, Bool-cases, inl, inr, List, [], ◌∷◌, All, Result, ◌&&◌,
}
use game_server_go.Base.Equality.{int_eq}
use game_server_go.Base.Int.{ℤ, pos, ◌≤ℤ◌, eqb_ℤ, leb_ℤ_iff, int_laws}
use game_server_go.Messages.Combat.{UnlockStyleReq, UnlockStyleResp}
use game_server_go.Protocol.Errors.{GoError}
use game_server_go.Store.Database.{Database, DbError, update_rows}
use game_server_go.Store.Rows.{PlayerStats, PlayerStyle}
use game_server_go.Combat.Handler.{unlock_style}
use game_server_go.Combat.Handler.Gold.{
  StatsRows, charge, IsPriced, unlocked, free, unrecorded, unpaid, charged, lost,
  unlock_style-Unlocks,
}

-- No player owes gold.
abbrev pub NoDebt : List PlayerStats → Type 0
NoDebt = All (λ r. pos 0 ≤ℤ r.gold)

update_rows-NoDebt :
    (p : PlayerStats → Bool) (f : PlayerStats → PlayerStats)
    → ((r : PlayerStats) → p r ≡ true → pos 0 ≤ℤ (f r).gold)
    → (rs : List PlayerStats) → NoDebt rs
    → NoDebt (update_rows p f rs)
unfolding update_rows
update_rows-NoDebt p f keeps [] h = tt
update_rows-NoDebt p f keeps (r ∷ rs) h = elim (Bool-cases (p r)) [
  | inl is_match ↦ rw is_match (keeps r is_match, update_rows-NoDebt p f keeps rs h.1)
  | inr other ↦ rw other (h.0, update_rows-NoDebt p f keeps rs h.1)
]

and_right : (a b : Bool) → (a && b) ≡ true → b ≡ true
and_right true b h = h
and_right false b h = absurd cc

charge-NoDebt : (uid : ℤ) (rs : List PlayerStats) → NoDebt rs → NoDebt (charge uid rs)
unfolding charge
charge-NoDebt uid rs h =
    update_rows-NoDebt _ _
      (λ r e.
        omega (int_laws, (leb_ℤ_iff (pos 100) r.gold).0 (and_right (eqb_ℤ r.player_id uid) _ e)))
      rs h

IsPriced-NoDebt :
    {W : Type 0} (rows : W → List PlayerStats) (uid : ℤ) (before : List PlayerStats)
    (attempt : Result DbError ℕ) (style_id : ℤ) (styles : List PlayerStyle)
    {out : Result GoError UnlockStyleResp × W}
    → IsPriced rows uid before attempt style_id styles out
    → NoDebt before
    → NoDebt (rows out.1)
IsPriced-NoDebt rows uid before a i styles (unlocked known same) h = rw same h
IsPriced-NoDebt rows uid before a i styles (free first same) h = rw same h
IsPriced-NoDebt rows uid before a i styles (unrecorded first fresh same) h = rw same h
IsPriced-NoDebt rows uid before a i styles (unpaid later fresh why same) h = rw same h
IsPriced-NoDebt rows uid before a i styles (charged later fresh some_row taken) h =
    rw taken (charge-NoDebt uid before h)
IsPriced-NoDebt rows uid before a i styles (lost later fresh some_row taken) h =
    rw taken (charge-NoDebt uid before h)

-- No player owes gold after an unlocking where none did before.
pub unlock_style-NoDebt :
    {W : Type 0} (db : Database W) (rows : W → List PlayerStats)
    → StatsRows db rows
    → (uid : ℤ) (req : UnlockStyleReq) (w : W) → NoDebt (rows w)
    → NoDebt (rows (unlock_style db uid req w).1)
unlock_style-NoDebt db rows laws uid req w h = elim (unlock_style-Unlocks db rows laws uid req w) [
  | inl (unknown, nothing) ↦ rw nothing h
  | inr (s, known, priced) ↦ IsPriced-NoDebt rows uid (rows w) _ _ _ priced h
]
