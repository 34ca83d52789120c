-- ===== src/Store/Settlement/Exact.antt =====
-- The settlement of internal/store/settlement.go against exact arithmetic.
use game_server_go.Base.{
  ◌≡◌, refl, ◌⊎◌, Bool, false, ◌||◌, ◌&&◌, some, Result, ok, err, arith, if◌then◌else◌,
}
use game_server_go.Base.Int.{
  ℤ, pos, ◌+ℤ◌, ◌-ℤ◌, ◌≤ℤ◌, ◌<ℤ◌, ltb_ℤ, eqb_ℤ, wrap64, max_int32, max_int64, wrap32_id, wrap64_id,
  int_laws, ltb_ℤ_iff, ltb_ℤ_false, eqb_ℤ_false, ltb_ℤ-eq-false, eqb_ℤ-eq-false,
}
use game_server_go.Messages.Account.{PlayerArchive}
use game_server_go.Messages.Combat.{CombatResultReq, CombatResultResp, outcome_victory}
use game_server_go.Store.Settlement.{credit, settle_rewards, settled_response}

-- Totals and balances that only settlements have written.
pub record IsSound (a : PlayerArchive) : Type 0 where
  pub gold_range : (pos 0 ≤ℤ a.gold) × (a.gold ≤ℤ max_int32)
  pub exp_range : (pos 0 ≤ℤ a.exp) × (a.exp ≤ℤ max_int32)
  pub kills_range : (pos 0 ≤ℤ a.total_kills) × (a.total_kills ≤ℤ max_int64)
  pub games_range : (pos 0 ≤ℤ a.total_games) × (a.total_games ≤ℤ max_int64)

-- The archive `b` after a run, in exact arithmetic.
pub record Credited (a : PlayerArchive) (req : CombatResultReq) (gold exp : ℤ) (b : PlayerArchive)
    : Type 0 where
  pub gold_added : b.gold ≡ a.gold +ℤ gold
  pub exp_added : b.exp ≡ a.exp +ℤ exp
  pub kills_added : b.total_kills ≡ a.total_kills +ℤ req.kills
  pub game_counted : b.total_games ≡ a.total_games +ℤ pos 1
  pub best_kept : (a.best_score ≤ℤ b.best_score) × (req.score ≤ℤ b.best_score)
  pub best_is : (b.best_score ≡ a.best_score) ⊎ (b.best_score ≡ req.score)
  pub cleared : b.highest_cleared_dungeon ≡ (
      if eqb_ℤ req.outcome outcome_victory && ltb_ℤ a.highest_cleared_dungeon req.dungeon_level
      then req.dungeon_level
      else a.highest_cleared_dungeon)
  pub style_set : b.last_style_id ≡ req.style_id
  pub schema_kept : b.schema_version ≡ a.schema_version
  pub talents_kept : b.talent_points ≡ a.talent_points
  pub styles_kept : b.unlocked_styles ≡ a.unlocked_styles

-- The run fits: the new balances are int32 values and the new totals are int64 values.
pub record Fits (a : PlayerArchive) (req : CombatResultReq) (gold exp : ℤ) : Type 0 where
  pub gold_fits : a.gold +ℤ gold ≤ℤ max_int32
  pub exp_fits : a.exp +ℤ exp ≤ℤ max_int32
  pub kills_fit : a.total_kills +ℤ req.kills ≤ℤ max_int64
  pub games_fit : a.total_games <ℤ max_int64

-- Three pairs of tests that must all fail before a value is returned.
pub guards_passed :
    {E A : Type 0} (t1 t2 t3 t4 t5 t6 : Bool) (x y z : E) (v r : A)
    → ◌≡◌ {A = Result E A}
        (if t1 || t2 then err x else if t3 || t4 then err y else if t5 || t6 then err z else ok v)
        (ok r)
    → (t1 ≡ false)
      × (t2 ≡ false)
      × (t3 ≡ false)
      × (t4 ≡ false)
      × (t5 ≡ false)
      × (t6 ≡ false)
      × (v ≡ r)
guards_passed t1 t2 t3 t4 t5 t6 x y z v r e = ground arith

module _ (a : PlayerArchive) (req : CombatResultReq) (gold exp : ℤ) (sound : IsSound a)
    (gains : (pos 0 ≤ℤ gold) × (pos 0 ≤ℤ exp))
    (small : (gold ≤ℤ pos 4611686018427387904) × (exp ≤ℤ pos 4611686018427387904))
    (kills : (pos 0 ≤ℤ req.kills) × (req.kills ≤ℤ max_int32)) where
  credit-Credited : Fits a req gold exp → Credited a req gold exp (credit a req gold exp)
  unfolding credit
  credit-Credited f = record {
    gold_added =
        rw (wrap32_id gold (omega int_laws) (omega int_laws))
          (wrap32_id _ (omega int_laws) (omega int_laws));
    exp_added =
        rw (wrap32_id exp (omega int_laws) (omega int_laws))
          (wrap32_id _ (omega int_laws) (omega int_laws));
    kills_added = wrap64_id _ (omega int_laws) (omega int_laws);
    game_counted = wrap64_id _ (omega int_laws) (omega int_laws);
    best_kept = (
      ground (arith, ltb_ℤ_iff a.best_score req.score),
      ground (arith, ltb_ℤ_false a.best_score req.score),
    );
    best_is = ground arith;
    cleared = refl;
    style_set = refl;
    schema_kept = refl;
    talents_kept = refl;
    styles_kept = refl;
  }

  gold_exact : wrap64 (a.gold +ℤ gold) ≡ a.gold +ℤ gold
  gold_exact = wrap64_id _ (omega int_laws) (omega int_laws)

  exp_exact : wrap64 (a.exp +ℤ exp) ≡ a.exp +ℤ exp
  exp_exact = wrap64_id _ (omega int_laws) (omega int_laws)

  room_exact : wrap64 (max_int64 -ℤ a.total_kills) ≡ max_int64 -ℤ a.total_kills
  room_exact = wrap64_id _ (omega int_laws) (omega int_laws)

  pub settle_rewards-Fits_back :
      Fits a req gold exp
      → settle_rewards a req gold exp ≡ ok (settled_response (credit a req gold exp) req gold exp)
  unfolding settle_rewards
  settle_rewards-Fits_back f = rw (
    gold_exact,
    exp_exact,
    room_exact,
    ltb_ℤ-eq-false max_int32 gold (omega int_laws),
    ltb_ℤ-eq-false max_int32 exp (omega int_laws),
    ltb_ℤ-eq-false max_int32 (a.gold +ℤ gold) f.gold_fits,
    ltb_ℤ-eq-false max_int32 (a.exp +ℤ exp) f.exp_fits,
    ltb_ℤ-eq-false (max_int64 -ℤ a.total_kills) req.kills (omega int_laws),
    eqb_ℤ-eq-false a.total_games max_int64 f.games_fit,
  )

  pub settle_rewards-Fits :
      (r : CombatResultResp)
      → settle_rewards a req gold exp ≡ ok r
      → Fits a req gold exp × (settled_response (credit a req gold exp) req gold exp ≡ r)
  unfolding settle_rewards
  settle_rewards-Fits r e =
      let (t1, t2, t3, t4, t5, t6, same) =
        guards_passed (ltb_ℤ max_int32 gold) (ltb_ℤ max_int32 exp)
          (ltb_ℤ max_int32 (wrap64 (a.gold +ℤ gold))) (ltb_ℤ max_int32 (wrap64 (a.exp +ℤ exp)))
          (ltb_ℤ (wrap64 (max_int64 -ℤ a.total_kills)) req.kills) (eqb_ℤ a.total_games max_int64) _
          _ _ _ r e in
      (
        record {
          gold_fits = ltb_ℤ_false _ _ (rw gold_exact at t3);
          exp_fits = ltb_ℤ_false _ _ (rw exp_exact at t4);
          kills_fit = let room = ltb_ℤ_false _ _ (rw room_exact at t5) in omega (int_laws, room);
          games_fit = eqb_ℤ_false _ _ t6 sound.games_range.1;
        },
        same,
      )

-- What a response says of a run, and of the archive that it carries.
abbrev pub Settled : PlayerArchive → CombatResultReq → ℤ → ℤ → CombatResultResp → Type 0
Settled a req gold exp r =
    (r.reward_gold ≡ gold)
    × (r.reward_exp ≡ exp)
    × (r.run_id ≡ req.run_id)
    × (b : PlayerArchive) × (r.archive ≡ some b)
    × (r.best_score ≡ b.best_score)
    × Credited a req gold exp b
    × IsSound b

Credited-IsSound :
    (a b : PlayerArchive) (req : CombatResultReq) (gold exp : ℤ)
    → IsSound a
    → (pos 0 ≤ℤ gold) × (pos 0 ≤ℤ exp) × (pos 0 ≤ℤ req.kills)
    → Fits a req gold exp
    → Credited a req gold exp b
    → IsSound b
Credited-IsSound a b req gold exp sound gains f c = record {
  gold_range = rw c.gold_added (omega int_laws);
  exp_range = rw c.exp_added (omega int_laws);
  kills_range = rw c.kills_added (omega int_laws);
  games_range = rw c.game_counted (omega int_laws);
}

pub settled_response-Settled :
    (a : PlayerArchive) (req : CombatResultReq) (gold exp : ℤ)
    → IsSound a
    → (pos 0 ≤ℤ gold) × (pos 0 ≤ℤ exp)
    → (gold ≤ℤ pos 4611686018427387904) × (exp ≤ℤ pos 4611686018427387904)
    → (pos 0 ≤ℤ req.kills) × (req.kills ≤ℤ max_int32)
    → Fits a req gold exp
    → Settled a req gold exp (settled_response (credit a req gold exp) req gold exp)
unfolding settled_response
settled_response-Settled a req gold exp sound gains small kills f =
    let c = credit-Credited a req gold exp sound gains small kills f in
    (
      wrap32_id gold (omega int_laws) (omega int_laws),
      wrap32_id exp (omega int_laws) (omega int_laws),
      refl,
      credit a req gold exp,
      refl,
      refl,
      c,
      Credited-IsSound a _ req gold exp sound (gains.0, gains.1, kills.0) f c,
    )
