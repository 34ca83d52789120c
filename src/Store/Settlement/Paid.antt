-- ===== src/Store/Settlement/Paid.antt =====
-- The settlement of internal/store/settlement.go with the rewards of the policy.
use mathlib.Core.Path.{subst}
use game_server_go.Base.{ℕ, ◌*◌, ◌≤◌, ◌≡◌, sym, ◌∙◌, ◌↔◌, some, ok, arith}
use game_server_go.Base.Int.{ℤ, pos, negsuc, ◌*ℤ◌, ◌≤ℤ◌, max_int32, wrap64_id, int_laws, *ℤ-pos}
use game_server_go.Messages.Account.{PlayerArchive}
use game_server_go.Messages.Combat.{CombatResultReq, CombatResultResp}
use game_server_go.Store.Repository.{CombatRewardPolicy}
use game_server_go.Store.Settlement.Exact.{
  IsSound, Fits, Settled, settle_rewards-Fits, settle_rewards-Fits_back, settled_response-Settled,
}
use game_server_go.Store.Settlement.{settle_archive, settle_rewards, settle_into}

-- A request that validation lets through and a reward policy within int32: the rewards are the exact
-- products.
pub record IsPaid (req : CombatResultReq) (policy : CombatRewardPolicy) : Type 0 where
  pub kills_range : (pos 0 ≤ℤ req.kills) × (req.kills ≤ℤ max_int32)
  pub gold_range : (pos 0 ≤ℤ policy.gold_per_kill) × (policy.gold_per_kill ≤ℤ max_int32)
  pub exp_range : (pos 0 ≤ℤ policy.exp_per_kill) × (policy.exp_per_kill ≤ℤ max_int32)

product_bound : (m n : ℕ) → m ≤ 2147483647 → n ≤ 2147483647 → m * n ≤ 4611686018427387904
product_bound m n h k = grind arith

product_small :
    (x y : ℤ)
    → pos 0 ≤ℤ x
    → x ≤ℤ max_int32
    → pos 0 ≤ℤ y
    → y ≤ℤ max_int32
    → (pos 0 ≤ℤ x *ℤ y) × (x *ℤ y ≤ℤ pos 4611686018427387904)
product_small (pos m) (pos n) _ h _ k =
    rw *ℤ-pos (omega arith, omega (arith, product_bound m n (omega arith) (omega arith)))
product_small (pos m) (negsuc n) _ h l k = absurd (omega arith)
product_small (negsuc m) y l h _ k = absurd (omega arith)

module _ (a : PlayerArchive) (req : CombatResultReq) (policy : CombatRewardPolicy)
    (sound : IsSound a) (paid : IsPaid req policy) where
  abbrev gold_of : ℤ
  gold_of = req.kills *ℤ policy.gold_per_kill

  abbrev exp_of : ℤ
  exp_of = req.kills *ℤ policy.exp_per_kill

  gold_small : (pos 0 ≤ℤ gold_of) × (gold_of ≤ℤ pos 4611686018427387904)
  gold_small =
      product_small req.kills policy.gold_per_kill paid.kills_range.0 paid.kills_range.1
        paid.gold_range.0 paid.gold_range.1

  exp_small : (pos 0 ≤ℤ exp_of) × (exp_of ≤ℤ pos 4611686018427387904)
  exp_small =
      product_small req.kills policy.exp_per_kill paid.kills_range.0 paid.kills_range.1
        paid.exp_range.0 paid.exp_range.1

  settle_archive_rewards : settle_archive (some a) req policy ≡ settle_rewards a req gold_of exp_of
  unfolding settle_archive settle_into
  settle_archive_rewards = rw (
    wrap64_id gold_of (omega (int_laws, gold_small)) (omega (int_laws, gold_small)),
    wrap64_id exp_of (omega (int_laws, exp_small)) (omega (int_laws, exp_small)),
  )

-- Settling a paid run on a sound archive succeeds exactly if the run fits: no overflow check refuses
-- a run that fits, and none lets one through that does not.
pub settle_archive_iff :
    (a : PlayerArchive) (req : CombatResultReq) (policy : CombatRewardPolicy)
    → IsSound a
    → IsPaid req policy
    → ((r : CombatResultResp) × (settle_archive (some a) req policy ≡ ok r))
      ↔ Fits a req (req.kills *ℤ policy.gold_per_kill) (req.kills *ℤ policy.exp_per_kill)
settle_archive_iff a req policy sound paid =
    let g = gold_small a req policy sound paid in
    let x = exp_small a req policy sound paid in
    let run = settle_archive_rewards a req policy sound paid in
    (
      λ (r, e).
          (settle_rewards-Fits a req _ _ sound (g.0, x.0) (g.1, x.1) paid.kills_range r
            (sym run ∙ e)).0,
      λ f. (
        _,
        run ∙ settle_rewards-Fits_back a req _ _ sound (g.0, x.0) (g.1, x.1) paid.kills_range f,
      ),
    )

-- Where it succeeds, the rewards are the kills times the rates, and the response holds the archive
-- with exactly these added, one more game, the better of the two scores, the dungeon cleared by a
-- victory on a deeper level, the run's style, and all else as it was; that archive is sound again.
pub settle_archive-Settled :
    (a : PlayerArchive) (req : CombatResultReq) (policy : CombatRewardPolicy) (r : CombatResultResp)
    → IsSound a
    → IsPaid req policy
    → settle_archive (some a) req policy ≡ ok r
    → Settled a req (req.kills *ℤ policy.gold_per_kill) (req.kills *ℤ policy.exp_per_kill) r
settle_archive-Settled a req policy r sound paid e =
    let g = gold_small a req policy sound paid in
    let x = exp_small a req policy sound paid in
    let run = settle_archive_rewards a req policy sound paid in
    let (f, same) =
      settle_rewards-Fits a req _ _ sound (g.0, x.0) (g.1, x.1) paid.kills_range r (sym run ∙ e) in
    subst (Settled a req (req.kills *ℤ policy.gold_per_kill) (req.kills *ℤ policy.exp_per_kill))
      same (settled_response-Settled a req _ _ sound (g.0, x.0) (g.1, x.1) paid.kills_range f)
