-- ===== src/Store/Redis/RateLimit.antt =====
-- CheckRateLimit of internal/store/redis.go over the requests of one window.
use game_server_go.Base.{
  ℕ, zero, suc, ◌+◌, ◌-◌, ◌≡◌, refl, ◌∙◌, ap, Bool, true, false, Bool-cases, inl, inr, ◌++◌, Option,
  none, Result, ok, err, leb, arith, if◌then◌else◌,
}
use game_server_go.Base.Equality.{◌==◌, int_eq}
use game_server_go.Base.Int.{ℤ, pos, ◌<ℤ◌, ltb_ℤ}
use game_server_go.Base.Text.{Bytes}
use game_server_go.Store.Repository.{StoreError}
use game_server_go.Store.Redis.{
  Commands, rate_limit_key_prefix, check_rate_limit, rate_script, counted, with_answer, within,
}

-- INCR and EXPIRE as Redis documents them, while a key has not expired: `count` reads a counter.
pub record Counts {W : Type 0} (c : Commands W) (count : Bytes → W → ℕ) : Type 0 where
  pub incr_answer : (k : Bytes) (w : W) → (c.script_incr k w).0 ≡ ok (pos (suc (count k w)))
  pub incr_count : (k : Bytes) (w : W) → count k (c.script_incr k w).1 ≡ suc (count k w)
  pub expire_answer : (k : Bytes) (s : ℤ) (w : W) → (c.script_expire k s w).0 ≡ none
  pub expire_count :
      (k : Bytes) (s : ℤ) (w : W) → pos 0 <ℤ s → count k (c.script_expire k s w).1 ≡ count k w

admitted : Result StoreError Bool → ℕ
admitted (ok true) = 1
admitted (ok false) = 0
admitted (err e) = 0

-- How many of `n` requests that follow each other pass.
unfoldable pub passed : {W : Type 0} → Commands W → (ℤ → ℤ) → Bytes → ℤ → ℤ → ℕ → W → ℕ
unfolding admitted
passed c whole_seconds key limit window zero w = 0
passed c whole_seconds key limit window (suc n) w =
    let r = check_rate_limit c whole_seconds key limit window w in
    admitted r.0 + passed c whole_seconds key limit window n r.1

within_lem : (limit n : ℕ) → within (pos limit) (pos n) ≡ leb n limit
unfolding within ltb_ℤ
within_lem limit n = ground arith

module _ {W : Type 0} (c : Commands W) (count : Bytes → W → ℕ) (laws : Counts c count) where
  with_answer_lem :
      (b : Bool) (o : Option StoreError) (w : W) → o ≡ none → with_answer b (o, w) ≡ (ok b, w)
  unfolding with_answer
  with_answer_lem b o w e = rw e refl

  abbrev pub Answers : Bytes → ℕ → ℕ → Result StoreError Bool × W → Type 0
  Answers key limit n r = (r.0 ≡ ok (leb (suc n) limit)) × (count key r.1 ≡ suc n)

  first_lem :
      (key : Bytes) (limit n : ℕ) (seconds : ℤ) (w : W)
      → count key w ≡ suc n
      → pos 0 <ℤ seconds
      → Answers key limit n
          (with_answer (within (pos limit) (pos (suc n))) (c.script_expire key seconds w))
  first_lem key limit n seconds w counts positive =
      rw
        (with_answer_lem (within (pos limit) (pos (suc n))) (c.script_expire key seconds w).0
          (c.script_expire key seconds w).1 (laws.expire_answer key seconds w))
        (ap ok (within_lem limit (suc n)), laws.expire_count key seconds w positive ∙ counts)

  counted_lem :
      (key : Bytes) (limit n : ℕ) (seconds : ℤ) (a : Result StoreError ℤ) (w : W)
      → a ≡ ok (pos (suc n))
      → count key w ≡ suc n
      → pos 0 <ℤ seconds
      → Answers key limit n (counted c key (pos limit) seconds (a, w))
  unfolding counted
  counted_lem key limit n seconds a w e counts positive =
      rw e (elim (Bool-cases (pos (suc n) == pos 1)) [
        | inl one ↦ rw one (first_lem key limit n seconds w counts positive)
        | inr more ↦ rw more (ap ok (within_lem limit (suc n)), counts)
      ])

  pub check_rate_limit_lem :
      (whole_seconds : ℤ → ℤ) (key : Bytes) (limit : ℕ) (window : ℤ) (w : W)
      → pos 0 <ℤ whole_seconds window
      → Answers
          (rate_limit_key_prefix ++ key)
          limit
          (count (rate_limit_key_prefix ++ key) w)
          (check_rate_limit c whole_seconds key (pos limit) window w)
  unfolding check_rate_limit rate_script
  check_rate_limit_lem whole_seconds key limit window w positive =
      counted_lem full limit (count full w) (whole_seconds window) (c.script_incr full w).0
        (c.script_incr full w).1 (laws.incr_answer full w) (laws.incr_count full w) positive
    where
      full : Bytes
      full = rate_limit_key_prefix ++ key

  admitted_lem :
      (b : Bool) (r : Result StoreError Bool) → r ≡ ok b → admitted r ≡ (if b then 1 else 0)
  unfolding admitted
  admitted_lem true r e = rw e refl
  admitted_lem false r e = rw e refl

-- Of the requests that follow each other in one window of at least a second, exactly those pass
-- that the limit leaves room for, after the ones that were counted before.
pub passed_lem :
    {W : Type 0} (c : Commands W) (count : Bytes → W → ℕ)
    → Counts c count
    → (whole_seconds : ℤ → ℤ) (key : Bytes) (limit : ℕ) (window : ℤ) → pos 0 <ℤ whole_seconds window
    → (n : ℕ) (w : W)
    → passed c whole_seconds key (pos limit) window n w ≡ (
        if leb n (limit - count (rate_limit_key_prefix ++ key) w)
        then n
        else limit - count (rate_limit_key_prefix ++ key) w)
unfolding passed
passed_lem c count laws whole_seconds key limit window positive zero w = ground arith
passed_lem c count laws whole_seconds key limit window positive (suc n) w =
    let (answer, counts) =
      check_rate_limit_lem c count laws whole_seconds key limit window w positive in
    ground (
      arith,
      admitted_lem c count laws _ _ answer,
      counts,
      passed_lem c count laws whole_seconds key limit window positive n
          (check_rate_limit c whole_seconds key (pos limit) window w).1,
    )
