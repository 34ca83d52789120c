-- ===== src/Logger/Files.antt =====
-- Which log files of pkg/logger are open, and what a write and a release do to them.
use game_server_go.Base.{
  ℕ, suc, ◌≡◌, refl, ap, inl, inr, true, false, List, [], ◌∷◌, Option, none, some, length, All,
  arith, Bool-cases, ◌==◌ as same_address,
}
use game_server_go.Base.Text.{Bytes}
use game_server_go.Logger.{GuardedLogFile, write_file, close_file, change_file, release}

-- The writer has been closed, once; or never.
abbrev pub IsReleased : GuardedLogFile → Type 0
IsReleased f = (f.closed ≡ true) × (f.writer_closes ≡ 1)

abbrev pub IsOpen : GuardedLogFile → Type 0
IsOpen f = (f.closed ≡ false) × (f.writer_closes ≡ 0)

-- Only the newest file may be open, and then it is the current one.
pub data IsTidy : Option ℕ → List GuardedLogFile → Type 0 where
  none_open : {files : List GuardedLogFile} → All IsReleased files → IsTidy none files
  newest_open :
      {a : ℕ} {f : GuardedLogFile} {older : List GuardedLogFile}
      → a ≡ length older
      → IsOpen f
      → All IsReleased older
      → IsTidy (some a) (f ∷ older)

same_address_self : (n : ℕ) → same_address n n ≡ true
same_address_self n = ground arith

same_address-suc : (n : ℕ) → same_address n (suc n) ≡ false
same_address-suc n = ground arith

release-IsReleased : (f : GuardedLogFile) → IsOpen f → IsReleased (release f)
unfolding release close_file
release-IsReleased f o = ground arith

-- The current file is released, whatever stands before it.
pub release_current :
    {current : Option ℕ} {files : List GuardedLogFile}
    → IsTidy current files
    → All IsReleased (change_file release current files)
unfolding change_file
release_current (none_open r) = r
release_current (newest_open {a} {f} {older} e o r) =
    rw (e, same_address_self (length older)) (release-IsReleased f o, r)

-- A file made before it is released is the only one open then.
pub release_under-IsTidy :
    (new : GuardedLogFile)
    → IsOpen new
    → {current : Option ℕ} {files : List GuardedLogFile} → IsTidy current files
    → IsTidy (some (length files)) (change_file release current (new ∷ files))
unfolding change_file
release_under-IsTidy new o (none_open r) = newest_open refl o r
release_under-IsTidy new o (newest_open {a} {f} {older} e p r) =
    rw (e, same_address-suc (length older), same_address_self (length older))
      (newest_open refl o (release-IsReleased f p, r))

write-IsReleased :
    (w : Bytes → ℕ × Option Bytes) (b : Bytes) (f : GuardedLogFile)
    → IsReleased f
    → (write_file w b f).1 ≡ f
unfolding write_file
write-IsReleased w b f r = ground arith

write-IsOpen :
    (w : Bytes → ℕ × Option Bytes) (b : Bytes) (f : GuardedLogFile)
    → IsOpen f
    → IsOpen (write_file w b f).1
unfolding write_file
write-IsOpen w b f r = ground arith

-- A released file takes nothing.
pub write_released :
    (w : Bytes → ℕ × Option Bytes) (b : Bytes) (at : Option ℕ) (files : List GuardedLogFile)
    → All IsReleased files
    → change_file (λ f. (write_file w b f).1) at files ≡ files
unfolding change_file
write_released w b none files r = refl
write_released w b (some a) [] r = refl
write_released w b (some a) (f ∷ older) r = elim (Bool-cases (same_address a (length older))) [
  | inl here ↦ rw here (ap (λ x. x ∷ older) (write-IsReleased w b f r.0))
  | inr below ↦ rw below (ap (λ x. f ∷ x) (write_released w b (some a) older r.1))
]

pub write-IsTidy :
    (w : Bytes → ℕ × Option Bytes) (b : Bytes) (at : Option ℕ) {current : Option ℕ}
    {files : List GuardedLogFile}
    → IsTidy current files
    → IsTidy current (change_file (λ f. (write_file w b f).1) at files)
unfolding change_file
write-IsTidy w b none t = t
write-IsTidy w b (some a) (none_open {files} r) =
    none_open (rw (write_released w b (some a) files r) r)
write-IsTidy w b (some a) (newest_open {a = k} {f} {older} e o r) =
    elim (Bool-cases (same_address a (length older))) [
      | inl here ↦ rw here (newest_open e (write-IsOpen w b f o) r)
      | inr below ↦ rw (below, write_released w b (some a) older r) (newest_open e o r)
    ]

pub release-none :
    {current : Option ℕ} (files : List GuardedLogFile)
    → current ≡ none
    → change_file release current files ≡ files
unfolding change_file
release-none files e = rw e refl
