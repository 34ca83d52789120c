-- ===== src/Rank/Member.antt =====
-- parseMember of internal/rank/handler.go on the members that internal/store/redis.go writes, and the
-- window of ranks.
use game_server_go.Base.{
  ℕ, zero, suc, ◌+◌, ◌/◌, ◌%◌, ◌≡◌, refl, inl, inr, Bool-cases, false, [], ◌∷◌, ◌++◌, Option, none,
  some, All, arith, ltb, ◌==◌, ltb→lt,
}
use game_server_go.Base.Decimal.{format_int, digits_loop}
use game_server_go.Base.Int.{
  ℤ, pos, negsuc, ◌≤ℤ◌, ◌+ℤ◌, ◌-ℤ◌, ltb_ℤ, int_laws, ltb_ℤ_iff, leb_ℤ_iff, ltb_ℤ_false, ◌<ℤ◌,
  wrap64_id, min_int64, max_int64, max_int32,
}
use game_server_go.Base.Parse.RoundTrip.{parse_int-format_int}
use game_server_go.Base.Text.{Bytes}
use game_server_go.Store.Redis.{rank_member}
use game_server_go.Rank.{
  split_colon, cut_after, parse_member, split_member, uid_or_zero, rank_window, bounded_start,
  bounded_count,
}

abbrev NoColon : Bytes → Type 0
NoColon = All (λ c. (c == b':') ≡ false)

digits_loop-NoColon : (fuel n : ℕ) (out : Bytes) → NoColon out → NoColon (digits_loop fuel n out)
unfolding digits_loop
digits_loop-NoColon zero n out h = h
digits_loop-NoColon (suc fuel) n out h = elim (Bool-cases (ltb n 10)) [
  | inl short ↦ rw short (ground (arith, ltb→lt n 10 short), h)
  | inr long ↦ rw long (digits_loop-NoColon fuel (n / 10) ((48 + n % 10) ∷ out) (ground arith, h))
]

minus-NoColon : (s : Bytes) → NoColon s → NoColon (b'-' ∷ s)
minus-NoColon s h = (refl, h)

format_int-NoColon : (z : ℤ) → NoColon (format_int z)
unfolding format_int
format_int-NoColon (pos n) = digits_loop-NoColon 20 n [] tt
format_int-NoColon (negsuc n) =
    minus-NoColon (digits_loop 20 (suc n) []) (digits_loop-NoColon 20 (suc n) [] tt)

split_colon-append : (s t : Bytes) → NoColon s → split_colon (s ++ (b':' ∷ t)) ≡ some (s, t)
unfolding split_colon cut_after
split_colon-append [] t h = refl
split_colon-append (c ∷ s) t h = rw (h.0, split_colon-append s t h.1) refl

-- A member of the leaderboard is read back as the player and the nickname that it was written for,
-- whatever the nickname holds.
pub parse_member-rank_member :
    (uid : ℤ) (nickname : Bytes)
    → min_int64 ≤ℤ uid
    → uid ≤ℤ max_int64
    → parse_member (rank_member uid nickname) ≡ (uid, nickname)
unfolding parse_member rank_member split_member uid_or_zero
parse_member-rank_member uid nickname low high =
    rw
      (
        split_colon-append (format_int uid) nickname (format_int-NoColon uid),
        parse_int-format_int uid low high,
      )
      refl

-- One to a hundred ranks whose last one is an int32, or a start so high that there are none.
pub data IsWindow (start count : ℤ) : Option (ℤ × ℤ) → Type 0 where
  window :
      {last : ℤ}
      → pos 0 ≤ℤ bounded_start start
      → bounded_start start ≤ℤ last
      → last ≤ℤ max_int32
      → last +ℤ pos 1 ≡ bounded_start start +ℤ bounded_count count
      → last ≤ℤ bounded_start start +ℤ pos 99
      → IsWindow start count (some (bounded_start start, last))
  no_window :
      max_int32 +ℤ pos 1 <ℤ bounded_start start +ℤ bounded_count count → IsWindow start count none

bounded_start-IsBounded :
    (start : ℤ)
    → start ≤ℤ max_int32
    → (pos 0 ≤ℤ bounded_start start) × (bounded_start start ≤ℤ max_int32)
unfolding bounded_start
bounded_start-IsBounded start high = ground (arith, ltb_ℤ_iff start (pos 0))

bounded_count-IsBounded :
    (count : ℤ) → (pos 1 ≤ℤ bounded_count count) × (bounded_count count ≤ℤ pos 100)
unfolding bounded_count
bounded_count-IsBounded count = ground (arith, leb_ℤ_iff count (pos 0), ltb_ℤ_iff (pos 100) count)

-- The window of every int32 start and every count.
pub rank_window-IsWindow :
    (start count : ℤ) → start ≤ℤ max_int32 → IsWindow start count (rank_window start count)
unfolding rank_window
rank_window-IsWindow start count high =
    let a = bounded_start-IsBounded start high in
    let b = bounded_count-IsBounded count in
    rw
      (
        wrap64_id (bounded_start start +ℤ bounded_count count) (omega (int_laws, a, b))
            (omega (int_laws, a, b)),
        wrap64_id (bounded_start start +ℤ bounded_count count -ℤ pos 1) (omega (int_laws, a, b))
            (omega (int_laws, a, b)),
      )
      (elim (Bool-cases (ltb_ℤ max_int32 (bounded_start start +ℤ bounded_count count -ℤ pos 1))) [
        | inl beyond ↦ rw beyond (no_window (omega (int_laws, (ltb_ℤ_iff _ _).0 beyond)))
        | inr inside ↦ rw inside (
            window a.0 (omega (int_laws, a, b)) (ltb_ℤ_false _ _ inside) (omega int_laws)
              (omega (int_laws, a, b)))
      ])
