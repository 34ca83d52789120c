-- ===== src/Probe.antt =====
-- cmd/devprobe/main.go: a client that plays one session against a development server. The dialled
-- websocket is a parameter over a state `W`, and so are proto.Marshal and proto.Unmarshal.
pub mod Exchange
pub mod Code
pub mod Run
pub mod Link
use game_server_go.Base.{
  ℕ, ◌+◌, ◌/◌, ◌%◌, ◌^◌, Bool, true, false, not, ◌||◌, ◌&&◌, List, [], ◌∷◌, ◌++◌, Option, none,
  some, Result, ok, err, and_then, ltb, ◌==◌ as same_number, if◌then◌else◌,
}
use game_server_go.Base.Int.{ℤ, pos, leb_ℤ, eqb_ℤ}
use game_server_go.Base.Equality.{bytes_beq}
use game_server_go.Base.Text.{Bytes, utf8}
use game_server_go.Messages.{Message, MsgType}
use game_server_go.Messages.Account.{
  PlayerArchive, LoginResp, LoadArchiveResp, SaveArchiveResp, ErrorResp,
}
use game_server_go.Messages.Combat.{CombatResultReq, CombatResultResp, outcome_victory}
use game_server_go.Protocol.Codec.{Frame, CodecError, encode, decode}
use game_server_go.Protocol.Ids.{id_login_req}

-- websocket.Conn: setting a deadline, writing a binary message, reading a message (its type is 2
-- where it is binary), sending the close message, and closing.
pub record WebSocket (W : Type 0) : Type 0 where
  pub set_write_deadline : W → Option Bytes × W
  pub write_message : Bytes → W → Option Bytes × W
  pub set_read_deadline : W → Option Bytes × W
  pub read_message : W → Result Bytes (ℕ × Bytes) × W
  pub write_close : W → W
  pub close : W → W

-- What the probe ends with, one for each text of the source.
pub data ProbeError : Type 0 where
  not_dialled no_identity : Bytes → ProbeError
  not_encoded : ℕ → CodecError → ProbeError
  no_write_deadline not_written no_read_deadline not_read : ℕ → Bytes → ProbeError
  not_binary : ℕ → ProbeError
  not_decoded : ℕ → CodecError → ProbeError
  wrong_seq wrong_msg_id : ℕ → ℕ → ProbeError
  bad_error_body : ProbeError
  server_error : ℤ → Bytes → ProbeError
  bad_body : ℕ → ProbeError
  login_uid : ℤ → ProbeError
  empty_token initial_archive_found save_failed archive_not_round_tripped first_settlement_refused
        duplicate_differs :
      ProbeError

-- probe
pub record Probe (W : Type 0) : Type 0 where
  pub conn : W
  pub seq : ℕ

-- hex.EncodeToString
hex_digit : ℕ → ℕ
hex_digit d = if ltb d 10 then 48 + d else 87 + d

unfoldable pub hex : Bytes → Bytes
unfolding hex_digit
hex [] = []
hex (b ∷ bs) = hex_digit (b / 16) ∷ hex_digit (b % 16) ∷ hex bs

-- newProbeLoginCode, of the sixteen bytes that rand.Read gives.
unfoldable pub new_probe_login_code : Result Bytes Bytes → Result ProbeError Bytes
new_probe_login_code (err e) = err (no_identity e)
new_probe_login_code (ok identity) = ok (utf8 "dev:process-probe-" ++ hex identity)

-- newProbeArchive
unfoldable pub new_probe_archive : PlayerArchive
new_probe_archive = record {
  schema_version = pos 1;
  gold = pos 7;
  exp = pos 11;
  best_score = pos 123;
  total_kills = pos 17;
  total_games = pos 2;
  highest_cleared_dungeon = pos 4;
  talent_points = pos 5;
  unlocked_styles = pos 1 ∷ pos 3 ∷ [];
  last_style_id = pos 3;
}

-- newProbeCombatResult; the survival time is the float64 1.
unfoldable pub new_probe_combat_result : Bytes → CombatResultReq
new_probe_combat_result run_id = record {
  run_id = utf8 "probe-" ++ run_id;
  dungeon_level = pos 2;
  score = pos 100;
  kills = pos 2;
  survival_time = 0x3ff0_0000_0000_0000;
  style_id = pos 1;
  outcome = outcome_victory;
  player_level = pos 1;
}

-- p.seq++ on a uint32, and the reset of a sequence number that has wrapped round to 0.
unfoldable pub next_seq : ℕ → ℕ
next_seq seq = let n = (seq + 1) % 2 ^ 32 in if same_number n 0 then 1 else n

-- proto.Equal on two archives, either of which may be nil.
same_ints : List ℤ → List ℤ → Bool
same_ints [] [] = true
same_ints (a ∷ as') (b ∷ bs) = if eqb_ℤ a b then same_ints as' bs else false
same_ints _ _ = false

same_archive : PlayerArchive → PlayerArchive → Bool
unfolding same_ints
same_archive a b =
    eqb_ℤ a.schema_version b.schema_version
    && (eqb_ℤ a.gold b.gold
        && (eqb_ℤ a.exp b.exp
            && (eqb_ℤ a.best_score b.best_score
                && (eqb_ℤ a.total_kills b.total_kills
                    && (eqb_ℤ a.total_games b.total_games
                        && (eqb_ℤ a.highest_cleared_dungeon b.highest_cleared_dungeon
                            && (eqb_ℤ a.talent_points b.talent_points
                                && (same_ints a.unlocked_styles b.unlocked_styles
                                    && eqb_ℤ a.last_style_id b.last_style_id))))))))

unfoldable pub equal_archives : Option PlayerArchive → Option PlayerArchive → Bool
unfolding same_archive
equal_archives none none = true
equal_archives (some a) (some b) = same_archive a b
equal_archives _ _ = false
