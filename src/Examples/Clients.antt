-- ===== src/Examples/Clients.antt =====
-- The probe, the client of WeChat and the logger at concrete inputs.
use game_server_go.Base.{
  ℕ, ◌≡◌, ◌↔◌, refl, List, [], ◌∷◌, true, false, Option, none, some, Result, ok, err, arith, All,
  ◌==◌, if◌then◌else◌,
}
use game_server_go.Base.Equality.{bytes_beq}
use game_server_go.Base.Int.{pos, eqb_ℤ, leb_ℤ}
use game_server_go.Base.Map.{get}
use game_server_go.Base.Text.{Bytes, utf8}
use game_server_go.Messages.{Message, MsgType}
use game_server_go.Messages.Account.{PlayerArchive}
use game_server_go.Login.Exchange.{Code2SessionResult, wechat_exchange, invalid_login_code}
use game_server_go.Login.Wechat.{WechatClient, HttpError, HttpResponse, code2_session}
use game_server_go.Login.Wechat.Classified.{
  IsNamed, IsRefused, wechat_exchange_identifies, wechat_exchange_refuses,
}
use game_server_go.Login.Service.{default_nickname}
use game_server_go.Logger.{Zap, info, nop, tee, initial, close}
use game_server_go.Logger.Files.{IsReleased}
use game_server_go.Logger.Lifecycle.{
  Event, inits, closes, logs, keeps_logging, run_calls, close_run,
}
use game_server_go.Logger.Lifecycle.Shut.{close_quiet}
use game_server_go.Combat.Validator.{max_kills}
use game_server_go.Runtime.Start.{Runtime}
use game_server_go.Runtime.Development.{World, Libraries, connected}
use game_server_go.Runtime.Development.Answers.{Travels}
use game_server_go.Runtime.Development.Handlers.{kernel_of, development_runtime_lem}
use game_server_go.Probe.{WebSocket, new_probe_archive, new_probe_combat_result}
use game_server_go.Probe.Code.{IsIdentity, login_code}
use game_server_go.Probe.Exchange.{read}
use game_server_go.Probe.Exchange.Matched.{IsAnswered, read_iff}
use game_server_go.Probe.Run.{run_probe}
use game_server_go.Probe.Link.{link}
use game_server_go.Probe.Link.Expected.{paid_archive, first_settlement, second_settlement}
use game_server_go.Probe.Link.Carried.{IsUnknown, Carries}
use game_server_go.Probe.Link.Passing.{run_probe_passes}
use game_server_go.Examples.Storage.{empty_store, nines}

abbrev zeros : Bytes
zeros = 0 ∷ 0 ∷ 0 ∷ 0 ∷ 0 ∷ 0 ∷ 0 ∷ 0 ∷ 0 ∷ 0 ∷ 0 ∷ 0 ∷ 0 ∷ 0 ∷ 0 ∷ 0 ∷ []

abbrev test_token : Bytes
test_token = utf8 "token"

abbrev run_id : Bytes
run_id = (new_probe_combat_result (login_code zeros)).run_id

-- The messages of the session, by a tag that stands for their bytes.
tag_of : Message → Option Bytes
tag_of (Message.login_req r) = some (1 ∷ [])
tag_of (Message.login_resp r) = some (2 ∷ [])
tag_of (Message.load_archive_req r) = some (3 ∷ [])
tag_of (Message.load_archive_resp r) = some (if r.found then 5 ∷ [] else 4 ∷ [])
tag_of (Message.save_archive_req r) = some (6 ∷ [])
tag_of (Message.save_archive_resp r) = some (7 ∷ [])
tag_of (Message.combat_result_req r) = some (8 ∷ [])
tag_of (Message.combat_result_resp r) = some (if r.duplicate then 10 ∷ [] else 9 ∷ [])
tag_of _ = none

tagged : ℕ → Option Message
tagged t =
    if t == 1
    then some (Message.login_req (record { code = login_code zeros }))
    else if t == 2
    then some (
        Message.login_resp
          (record { uid = pos 1; nickname = default_nickname (pos 1); token = test_token }))
    else if t == 3
    then some (Message.load_archive_req record {})
    else if t == 4
    then some (Message.load_archive_resp (record { found = false; archive = none }))
    else if t == 5
    then some
        (Message.load_archive_resp (record { found = true; archive = some new_probe_archive }))
    else if t == 6
    then some (Message.save_archive_req (record { archive = some new_probe_archive }))
    else if t == 7
    then some (Message.save_archive_resp (record { success = true }))
    else if t == 8
    then some (Message.combat_result_req (new_probe_combat_result (login_code zeros)))
    else if t == 9
    then some (Message.combat_result_resp (first_settlement run_id))
    else if t == 10
    then some (Message.combat_result_resp (second_settlement run_id))
    else none

parse_tag : MsgType → Bytes → Option Message
parse_tag type [] = none
parse_tag type (t ∷ rest) = tagged t

archive_tag : Option PlayerArchive → Result Bytes Bytes
archive_tag none = err []
archive_tag (some a) = ok (if eqb_ℤ a.gold (pos 7) then 1 ∷ [] else 2 ∷ [])

parse_archive : Bytes → Result Bytes PlayerArchive
parse_archive [] = err []
parse_archive (t ∷ rest) = ok (if t == 1 then new_probe_archive else paid_archive)

abbrev probe_libraries : Libraries
probe_libraries = record {
  encoding = record {
    marshal_archive = archive_tag;
    unmarshal_archive = parse_archive;
    marshal_response = λ r. ok (1 ∷ []);
    unmarshal_response = λ b. ok (first_settlement run_id);
  };
  marshal = tag_of;
  unmarshal = parse_tag;
  floats = nines;
  fault_text = λ f. [];
  encode_metadata = λ a b c d. ok [];
  token = ok test_token;
}

zeros-IsIdentity : IsIdentity zeros
zeros-IsIdentity = record { sixteen = refl; bytes = omega arith }

empty_store-IsUnknown : IsUnknown (login_code zeros) empty_store
unfolding get
empty_store-IsUnknown = record {
  unused = refl;
  positive = omega arith;
  no_archive = refl;
  no_run = refl;
  default_policy = refl;
}

tag-Travels :
    (m : Message) (t : ℕ) → tag_of m ≡ some (t ∷ []) → tagged t ≡ some m → Travels probe_libraries m
unfolding parse_tag
tag-Travels m t e p = record { body = t ∷ []; marshals = e; fits = omega arith; parses = p }

probe_libraries-Carries : Carries probe_libraries (login_code zeros) test_token (pos 1)
unfolding tag_of tagged archive_tag parse_archive max_kills eqb_ℤ leb_ℤ new_probe_archive utf8
    bytes_beq
probe_libraries-Carries = record {
  generated = refl;
  token_set = refl;
  kills_allowed = omega arith;
  saved_bytes = 1 ∷ [];
  saved = refl;
  loaded = refl;
  paid_bytes = 2 ∷ [];
  paid = refl;
  settled_bytes = 1 ∷ [];
  settled = refl;
  replayed = refl;
  login_req = tag-Travels _ 1 refl refl;
  login_resp = tag-Travels _ 2 refl refl;
  load_req = tag-Travels _ 3 refl refl;
  missing_resp = tag-Travels _ 4 refl refl;
  found_resp = tag-Travels _ 5 refl refl;
  save_req = tag-Travels _ 6 refl refl;
  save_resp = tag-Travels _ 7 refl refl;
  run_req = tag-Travels _ 8 refl refl;
  first_resp = tag-Travels _ 9 refl refl;
  second_resp = tag-Travels _ 10 refl refl;
}

abbrev probe_runtime : Runtime World
probe_runtime = record { kernel = kernel_of probe_libraries true; closers = []; development = true }

run_probe_passes_example :
    (run_probe
      (link probe_libraries probe_runtime.kernel)
      tag_of
      parse_tag
      (λ w. (none, w))
      (ok zeros)
      (connected empty_store)).0
    ≡ ok tt
run_probe_passes_example =
    run_probe_passes probe_libraries zeros test_token empty_store probe_runtime
      (development_runtime_lem probe_libraries true (connected empty_store)) zeros-IsIdentity
      empty_store-IsUnknown probe_libraries-Carries

-- WeChat as it names a player for one code, and refuses another.
abbrev wechat_client : WechatClient
wechat_client = record { app_id = utf8 "id"; app_secret = utf8 "secret"; timeout_seconds = 10 }

abbrev always : Bytes → Result HttpError HttpResponse
always url = ok (record { status = pos 200; body = ok [] })

abbrev names_player : Bytes → Result Bytes Code2SessionResult
names_player body = ok (record {
  open_id = utf8 "player";
  session_key = [];
  union_id = [];
  err_code = pos 0;
  err_msg = [];
})

abbrev refuses_code : Bytes → Result Bytes Code2SessionResult
refuses_code body =
    ok
      (record { open_id = []; session_key = []; union_id = []; err_code = pos 40029; err_msg = [] })

wechat_exchange_identifies_example :
    (wechat_exchange (some (code2_session always names_player wechat_client)) (utf8 "code")
      ≡ ok (record { open_id = utf8 "player" }))
    ↔ IsNamed always names_player wechat_client (utf8 "code") (record { open_id = utf8 "player" })
wechat_exchange_identifies_example =
    wechat_exchange_identifies always names_player wechat_client (utf8 "code")
      (record { open_id = utf8 "player" })

wechat_exchange_refuses_example :
    ((t : Bytes) × (wechat_exchange
          (some (code2_session always refuses_code wechat_client))
          (utf8 "code")
        ≡ err (invalid_login_code t)))
    ↔ IsRefused always refuses_code wechat_client (utf8 "code")
wechat_exchange_refuses_example =
    wechat_exchange_refuses always refuses_code wechat_client (utf8 "code")

-- A logger that is configured twice, and a logger of zap that outlives it.
abbrev test_zap : Zap
test_zap = record { enabled = λ a b. true; console_encoder = λ l t. t; json_encoder = λ l t. t }

abbrev test_calls : List Event
test_calls =
    inits (utf8 "info") (utf8 "a.log") (pos 1) (pos 1) (pos 1)
    ∷ logs info (utf8 "one")
    ∷ inits (utf8 "warn") (utf8 "b.log") (pos 1) (pos 1) (pos 1)
    ∷ []

close_run_example :
    All IsReleased (close (run_calls test_zap test_calls (initial nop))).files
    × ((close (run_calls test_zap test_calls (initial nop))).zap_global ≡ nop)
    × ((close (run_calls test_zap test_calls (initial nop))).global_logger ≡ nop)
    × (close (close (run_calls test_zap test_calls (initial nop)))
        ≡ close (run_calls test_zap test_calls (initial nop)))
close_run_example = close_run test_zap nop test_calls

close_quiet_example :
    (run_calls test_zap
      (keeps_logging (tee info (some 0)) info (utf8 "late") ∷ closes ∷ [])
      (close (run_calls test_zap test_calls (initial nop)))).files
    ≡ (close (run_calls test_zap test_calls (initial nop))).files
close_quiet_example =
    close_quiet test_zap nop test_calls
      (keeps_logging (tee info (some 0)) info (utf8 "late") ∷ closes ∷ []) (tt, (tt, tt))

-- A websocket that always delivers the same two bytes.
abbrev stuck_socket : WebSocket ℕ
stuck_socket = record {
  set_write_deadline = λ w. (none, w);
  write_message = λ b w. (none, w);
  set_read_deadline = λ w. (none, w);
  read_message = λ w. (ok (2, 1 ∷ 2 ∷ []), w);
  write_close = λ w. w;
  close = λ w. w;
}

read_iff_example :
    ((read parse_tag 1002 1 MsgType.login_resp stuck_socket (record { conn = 0; seq = 1 })).0
      ≡ ok (Message.load_archive_req record {}))
    ↔ IsAnswered parse_tag 1002 1 MsgType.login_resp stuck_socket
        (Message.load_archive_req record {})
        (none, 0)
read_iff_example =
    read_iff parse_tag 1002 1 MsgType.login_resp stuck_socket (Message.load_archive_req record {})
      (record { conn = 0; seq = 1 })
