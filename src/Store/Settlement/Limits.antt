-- ===== src/Store/Settlement/Limits.antt =====
-- Where the overflow checks of internal/store/settlement.go go wrong.
use game_server_go.Base.{◌≡◌, ◌≢◌, inl, inr, Result-cases, some, ok, err, arith}
use game_server_go.Base.Int.{
  ℤ, pos, negsuc, ◌-ℤ◌, ◌+ℤ◌, ◌≤ℤ◌, ◌<ℤ◌, ltb_ℤ, eqb_ℤ, wrap64, max_int32, max_int64, min_int64,
  ltb_ℤ_false, int_laws,
}
use game_server_go.Messages.Account.{PlayerArchive}
use game_server_go.Messages.Combat.{CombatResultReq, CombatResultResp}
use game_server_go.Store.Repository.{CombatRewardPolicy, StoreError}
use game_server_go.Store.Settlement.Exact.{guards_passed}
use game_server_go.Store.Settlement.{settle_archive, settle_into, settle_rewards}

-- `math.MaxInt64 - TotalKills` wraps around where the total is negative.
room_wraps :
    (total : ℤ) → min_int64 ≤ℤ total → total <ℤ pos 0 → wrap64 (max_int64 -ℤ total) <ℤ pos 0
unfolding wrap64 ◌-ℤ◌
room_wraps (pos n) lo hi = absurd (omega arith)
room_wraps (negsuc n) lo hi = ground arith

negative_total_fails :
    (a : PlayerArchive) (req : CombatResultReq) (gold exp : ℤ) (r : CombatResultResp)
    → min_int64 ≤ℤ a.total_kills
    → a.total_kills <ℤ pos 0
    → pos 0 ≤ℤ req.kills
    → settle_rewards a req gold exp ≢ ok r
unfolding settle_rewards
negative_total_fails a req gold exp r lo hi k e =
    let below = room_wraps a.total_kills lo hi in
    let t5 =
      (guards_passed (ltb_ℤ max_int32 gold) (ltb_ℤ max_int32 exp)
        (ltb_ℤ max_int32 (wrap64 (a.gold +ℤ gold))) (ltb_ℤ max_int32 (wrap64 (a.exp +ℤ exp)))
        (ltb_ℤ (wrap64 (max_int64 -ℤ a.total_kills)) req.kills) (eqb_ℤ a.total_games max_int64) _ _
        _ _ r e).4 in
    absurd (omega (int_laws, ltb_ℤ_false _ _ t5, below))

-- An archive whose total of kills is negative can never be settled again, however small the run: the
-- overflow check itself overflows and refuses. Nothing else overflows there: the new total would be
-- smaller than the largest int32.
pub settle_archive_negative_total :
    (a : PlayerArchive) (req : CombatResultReq) (policy : CombatRewardPolicy)
    → min_int64 ≤ℤ a.total_kills
    → a.total_kills <ℤ pos 0
    → pos 0 ≤ℤ req.kills
    → req.kills ≤ℤ max_int32
    → (a.total_kills +ℤ req.kills <ℤ max_int32)
      × (e : StoreError) × (settle_archive (some a) req policy ≡ err e)
unfolding settle_archive settle_into
settle_archive_negative_total a req policy lo hi k l =
    elim (Result-cases (settle_archive (some a) req policy)) [
      | inr (e, refused) ↦ (omega int_laws, e, refused)
      | inl (r, settled) ↦ absurd (negative_total_fails a req _ _ r lo hi k settled)
    ]
