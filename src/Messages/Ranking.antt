-- ===== src/Messages/Ranking.antt =====
-- The message types of internal/protocolpb/game.pb.go for the leaderboard.
use game_server_go.Base.{Bool, List, Option}
use game_server_go.Base.Int.{ℤ}
use game_server_go.Base.Text.{Bytes}

pub record GetRankReq : Type 0 where
  pub rank_type : ℤ
  pub start : ℤ
  pub count : ℤ

pub record RankItem : Type 0 where
  pub uid : ℤ
  pub nickname : Bytes
  pub level : ℤ
  pub score : ℤ
  pub rank : ℤ

pub record GetRankResp : Type 0 where
  pub ranks : List RankItem

pub record ScoreMetadata : Type 0 where
  pub duration_ms : ℤ
  pub kills : ℤ
  pub dungeon_level : ℤ
  pub style_id : ℤ
  pub player_level : ℤ

pub record SubmitScoreReq : Type 0 where
  pub score : ℤ
  pub metadata : Option ScoreMetadata

pub record SubmitScoreResp : Type 0 where
  pub success : Bool
  pub best_score : ℤ
