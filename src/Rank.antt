-- ===== src/Rank.antt =====
-- internal/rank/handler.go: the leaderboard over Redis, with the players' levels from MySQL. The
-- player of the context's session is the argument `uid`.
pub mod Member
use game_server_go.Base.{
  ℕ, ◌||◌, List, [], ◌∷◌, Option, none, some, Result, ok, err, ◌==◌, if◌then◌else◌, true,
}
use game_server_go.Base.Decimal.{format_int}
use game_server_go.Base.Float.{Float64, FloatOps}
use game_server_go.Base.Int.{ℤ, pos, ◌+ℤ◌, ◌-ℤ◌, ltb_ℤ, leb_ℤ, wrap32, wrap64, max_int32}
use game_server_go.Base.Parse.{Parsed, parsed, syntax_error, out_of_range, parse_int}
use game_server_go.Base.Text.{Bytes, utf8}
use game_server_go.Messages.Ranking.{
  GetRankReq, GetRankResp, RankItem, ScoreMetadata, SubmitScoreReq, SubmitScoreResp,
}
use game_server_go.Protocol.Errors.{
  GoError, biz, err_internal, err_invalid_param, err_rank_invalid_range,
}
use game_server_go.Store.Database.{Database, DbError}
use game_server_go.Store.MySql.{
  get_player_by_id, get_player_stats, update_best_score, create_score_record,
}
use game_server_go.Store.Redis
use game_server_go.Store.Redis.{Commands, Scored}
use game_server_go.Store.Repository.{Player, StoreError}
use game_server_go.Store.Rows.{PlayerStats, ScoreRecord}

-- RankType_TopScore
abbrev pub rank_type_top_score : ℤ
rank_type_top_score = pos 1

-- The bounds of a count and of a start.
unfoldable pub bounded_count : ℤ → ℤ
bounded_count count = if leb_ℤ count (pos 0) || ltb_ℤ (pos 100) count then pos 100 else count

unfoldable pub bounded_start : ℤ → ℤ
bounded_start start = if ltb_ℤ start (pos 0) then pos 0 else start

-- rankWindow: the first and the last rank, 0-based, or none where the last passes int32.
unfoldable pub rank_window : ℤ → ℤ → Option (ℤ × ℤ)
unfolding bounded_count bounded_start
rank_window start count =
    let stop = wrap64 (wrap64 (bounded_start start +ℤ bounded_count count) -ℤ pos 1) in
    if ltb_ℤ max_int32 stop then none else some (bounded_start start, stop)

cut_after : ℕ → Option (Bytes × Bytes) → Option (Bytes × Bytes)
cut_after c none = none
cut_after c (some (head, tail)) = some (c ∷ head, tail)

-- The two parts of strings.SplitN(s, ":", 2), or none where there is one part.
unfoldable pub split_colon : Bytes → Option (Bytes × Bytes)
unfolding cut_after
split_colon [] = none
split_colon (c ∷ s) =
    let rest = cut_after c (split_colon s) in if c == b':' then some ([], s) else rest

uid_or_zero : Bytes → Bytes → Parsed → ℤ × Bytes
uid_or_zero member nickname (parsed uid) = (uid, nickname)
uid_or_zero member nickname syntax_error = (pos 0, member)
uid_or_zero member nickname (out_of_range z) = (pos 0, member)

split_member : Bytes → Option (Bytes × Bytes) → ℤ × Bytes
unfolding uid_or_zero
split_member member none = (pos 0, member)
split_member member (some (head, tail)) = uid_or_zero member tail (parse_int head)

-- parseMember
unfoldable pub parse_member : Bytes → ℤ × Bytes
unfolding split_member split_colon
parse_member member = split_member member (split_colon member)

level_in : {W : Type 0} → Result DbError PlayerStats × W → ℤ × W
level_in (ok stats, w) = (stats.level, w)
level_in (err e, w) = (pos 0, w)

nickname_in : {W : Type 0} → ℤ → Result DbError Player × W → Bytes × W
nickname_in uid (ok player, w) = (player.nickname, w)
nickname_in uid (err e, w) = (format_int uid, w)

best_score_in : {W : Type 0} → Result DbError Player × W → ℤ × W
best_score_in (ok player, w) = (player.best_score, w)
best_score_in (err e, w) = (pos 0, w)

module _ {W : Type 0} (ops : FloatOps) (redis : Commands W) (mysql : Database W) where
  -- One element of the response: its rank is the start and its place in the list.
  rank_item : ℤ → ℤ → Scored → W → RankItem × W
  unfolding parse_member level_in
  rank_item start place z w =
      let member = parse_member z.member in
      let level = level_in (get_player_stats mysql member.0 w) in
      (
        record {
          uid = member.0;
          nickname = member.1;
          level = wrap32 level.0;
          score = ops.to_int64 z.score;
          rank = wrap32 (wrap32 (start +ℤ wrap32 place) +ℤ pos 1);
        },
        level.1,
      )

  unfoldable pub rank_items : ℤ → ℤ → List Scored → W → List RankItem × W
  unfolding rank_item
  rank_items start place [] w = ([], w)
  rank_items start place (z ∷ zs) w =
      let item = rank_item start place z w in
      let rest = rank_items start (place +ℤ pos 1) zs item.1 in (item.0 ∷ rest.0, rest.1)

  rank_reply : ℤ → Result StoreError (List Scored) × W → Result GoError GetRankResp × W
  unfolding rank_items
  rank_reply start (err e, w) = (err (biz err_internal (utf8 "获取排行榜失败")), w)
  rank_reply start (ok zs, w) =
      let items = rank_items start (pos 0) zs w in (ok (record { ranks = items.0 }), items.1)

  rank_in : GetRankReq → Option (ℤ × ℤ) → W → Result GoError GetRankResp × W
  unfolding rank_reply bounded_start
  rank_in req none w = (err (biz err_rank_invalid_range (utf8 "invalid rank range")), w)
  rank_in req (some (start, stop)) w =
      rank_reply (bounded_start req.start) (Redis.get_rank redis req.rank_type start stop w)

  -- Handler.GetRank
  unfoldable pub get_rank : GetRankReq → W → Result GoError GetRankResp × W
  unfolding rank_in rank_window
  get_rank req w = rank_in req (rank_window (bounded_start req.start) (bounded_count req.count)) w

  -- The best score of the response: that of the request where the update returned no error.
  best_after : ℤ → ℤ → Option DbError × W → ℤ × W
  unfolding best_score_in
  best_after uid score (none, w) = (score, w)
  best_after uid score (some e, w) = best_score_in (get_player_by_id mysql uid w)

  -- The response, and the row that a goroutine of its own writes later.
  submit : (ScoreMetadata → Bytes) → ℤ → SubmitScoreReq → W → (SubmitScoreResp × ScoreRecord) × W
  unfolding nickname_in best_after
  submit metadata_text uid req w =
      let named = nickname_in uid (get_player_by_id mysql uid w) in
      let ranked = Redis.update_rank redis ops rank_type_top_score uid named.0 req.score named.1 in
      let best = best_after uid req.score (update_best_score mysql uid req.score ranked.1) in
      (
        (
          record { success = true; best_score = best.0 },
          record {
            id = pos 0;
            player_id = uid;
            score = req.score;
            metadata = elim req.metadata [ none ↦ [] | some m ↦ metadata_text m ];
            created_at = 0;
          },
        ),
        best.1,
      )

  -- Handler.SubmitScore; `metadata_text` is String of the generated message.
  unfoldable pub submit_score :
      (ScoreMetadata → Bytes)
      → ℤ
      → SubmitScoreReq
      → W
      → Result GoError (SubmitScoreResp × ScoreRecord) × W
  unfolding submit
  submit_score metadata_text uid req w =
      let done = submit metadata_text uid req w in
      if ltb_ℤ req.score (pos 0)
      then (err (biz err_invalid_param (utf8 "分数不能为负数")), w)
      else (ok done.0, done.1)

  -- The goroutine of SubmitScore.
  unfoldable pub write_score : ScoreRecord → W → Option DbError × W
  write_score r w = create_score_record mysql r w
