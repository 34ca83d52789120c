-- ===== src/Examples/Messaging.antt =====
-- Frames and sessions.
use game_server_go.Base.{
  ℕ, ◌^◌, ◌<◌, ◌≤◌, ◌≡◌, refl, ◌⊎◌, [], ◌∷◌, Option, some, ok, arith, length, true, Result, err,
}
use game_server_go.Base.Equality.{bytes_eq}
use game_server_go.Base.Int.{pos}
use game_server_go.Base.Text.{Bytes, utf8}
use game_server_go.Messages.{Message}
use game_server_go.Protocol.Codec.{encode, decode, frame_of, max_frame_size}
use game_server_go.Protocol.Codec.RoundTrip.{decode-encode, decode_canonical}
use game_server_go.Session.{new_session, Session}
use game_server_go.Messages.Account.{PlayerArchive}
use game_server_go.Store.Settlement.{fresh_archive}
use game_server_go.Store.Memory.{MemoryStore}
use game_server_go.Game.InMemory.{saved_by, loaded_by, load_handler-save_handler}
use game_server_go.Login.Handler.{login_handler, classify_login_error}
use game_server_go.Login.Handler.Identity.{IsIdentified, login_handler-IsIdentified}
use game_server_go.Login.Service.{login, LoginError}
use game_server_go.Login.Service.InMemory.{memory_players, memory_sessions}
use game_server_go.Login.Exchange.{development_exchange}
use game_server_go.Messages.Account.{LoginResp}
use game_server_go.Examples.Server.{wire_frame, heartbeat_frame, request}

abbrev two_bytes : Message → Option Bytes
two_bytes m = some (8 ∷ 5 ∷ [])

decode-encode_example :
    (wire : Bytes) × (encode two_bytes 1003 7 (some request) ≡ ok wire)
    × (length wire ≡ 12)
    × (decode wire ≡ ok (record { msg_id = 1003; seq = 7; body = 8 ∷ 5 ∷ [] }))
decode-encode_example =
    decode-encode two_bytes 1003 7 request (8 ∷ 5 ∷ []) (omega arith) (omega arith) refl
      (omega arith)

decode_canonical_example :
    (wire_frame ≡ frame_of 1003 7 [])
    × (1003 < 2 ^ 16)
    × (7 < 2 ^ 32)
    × (length wire_frame ≤ max_frame_size)
unfolding decode
decode_canonical_example = decode_canonical wire_frame heartbeat_frame (ground arith) refl

abbrev empty_store : MemoryStore
empty_store = record {
  next_player_id = pos 1;
  players_by_id = [];
  player_id_by_open_id = [];
  sessions_by_uid = [];
  archives_by_uid = [];
  settlement_policy = record { gold_per_kill = pos 5; exp_per_kill = pos 10 };
  settlements = [];
  player_levels = [];
}

login_handler-IsIdentified_example :
    ((resp : LoginResp) × (after : Session ℕ) × ((login_handler {C = ℕ} memory_players
          memory_sessions
          (development_exchange true (utf8 "dev:a"))
          (ok (utf8 "t1"))
          (some new_session)
          empty_store).0
        ≡ ok resp)
      × ((login_handler {C = ℕ} memory_players memory_sessions
            (development_exchange true (utf8 "dev:a"))
            (ok (utf8 "t1"))
            (some new_session)
            empty_store).1
          ≡ some after)
      × IsIdentified new_session after resp)
    ⊎ (e : LoginError) × ((login memory_players memory_sessions
          (development_exchange true (utf8 "dev:a"))
          (ok (utf8 "t1"))
          empty_store).0
        ≡ err e)
      × ((login_handler {C = ℕ} memory_players memory_sessions
            (development_exchange true (utf8 "dev:a"))
            (ok (utf8 "t1"))
            (some new_session)
            empty_store).0
          ≡ err (classify_login_error e))
      × ((login_handler {C = ℕ} memory_players memory_sessions
            (development_exchange true (utf8 "dev:a"))
            (ok (utf8 "t1"))
            (some new_session)
            empty_store).1
          ≡ some new_session)
login_handler-IsIdentified_example =
    login_handler-IsIdentified memory_players memory_sessions
      (development_exchange true (utf8 "dev:a")) (ok (utf8 "t1")) new_session empty_store

-- A marshaller that writes the gold alone.
abbrev gold_of : PlayerArchive → Result Bytes Bytes
gold_of a = ok (9 ∷ [])

abbrev nine_gold : PlayerArchive
nine_gold = record fresh_archive { gold = pos 9 }

abbrev read_nine : Bytes → Result Bytes PlayerArchive
read_nine b = ok nine_gold

load_handler-save_handler_example :
    ((saved_by gold_of read_nine (pos 4) nine_gold empty_store).0 ≡ ok (record { success = true }))
    × (loaded_by gold_of read_nine
          (pos 4)
          (saved_by gold_of read_nine (pos 4) nine_gold empty_store).1
        ≡ ok (record { found = true; archive = some nine_gold }))
    × (loaded_by gold_of read_nine
          (pos 5)
          (saved_by gold_of read_nine (pos 4) nine_gold empty_store).1
        ≡ loaded_by gold_of read_nine (pos 5) empty_store)
load_handler-save_handler_example =
    load_handler-save_handler gold_of read_nine (pos 4) (pos 5) nine_gold (9 ∷ []) empty_store refl
      refl (λ e. absurd cc)
