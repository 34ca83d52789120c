-- ===== src/Probe/Link/Answered.antt =====
-- The answers of the development server of cmd/server/main.go to the requests of cmd/devprobe/main.go.
use game_server_go.Base.{ℕ, ◌≡◌, refl, ap, ◌∙◌, true, false, none, some, ok, arith}
use game_server_go.Base.Equality.{nat_eq, int_eq, bytes_eq}
use game_server_go.Base.Map.{get, get-put_self}
use game_server_go.Base.Text.{Bytes}
use game_server_go.Messages.{Message, MsgType, type_of}
use game_server_go.Kernel.{is_auth_free}
use game_server_go.Login.Service.{default_nickname}
use game_server_go.Session.{bind, set}
use game_server_go.Login.Handler.{identify}
use game_server_go.Combat.Config.{default_combat_config}
use game_server_go.Combat.Validator.{validate_combat_result}
use game_server_go.Combat.Validator.Accepted.{validate_combat_result_iff}
use game_server_go.Store.Repository.{SessionData}
use game_server_go.Store.Memory.{MemoryStore, key_eq, store_player}
use game_server_go.Store.Memory.Settling
use game_server_go.Store.Settlement.{settle_archive}
use game_server_go.Store.Memory.Settling.{Encoding, key_of, record_settlement, archive_before}
use game_server_go.Store.Memory.Settling.Answers.{settle_first, settle_again}
use game_server_go.Runtime.Development.{World, Libraries, connected}
use game_server_go.Runtime.Development.Handlers.{not_low, kernel_of, entry, free-Passes}
use game_server_go.Runtime.Development.Methods.{
  saved_store, load_missing, load_row, save_given, settle_given, after_login, login_newcomer,
}
use game_server_go.Game.InMemory.{row_of}
use game_server_go.Probe.{new_probe_archive, new_probe_combat_result}
use game_server_go.Probe.Code.{
  IsIdentity, login_code, development_exchange_code, new_probe_combat_result-IsAccepted,
}
use game_server_go.Messages.Combat.{CombatResultReq, CombatResultResp}
use game_server_go.Probe.Run.{check_login}
use game_server_go.Probe.Link.{Responds}
use game_server_go.Probe.Link.Expected.{
  first_settlement, second_settlement, settle_archive_probe, record_settlement-sessions,
  record_settlement-run,
}
use game_server_go.Probe.Link.Carried.{IsUnknown, Carries, run_of, player-Responds}

module _ (libs : Libraries) (identity token : Bytes) (s : MemoryStore) (known : IsIdentity identity)
    (unknown : IsUnknown (login_code identity) s)
    (c : Carries libs (login_code identity) token s.next_player_id) where
  -- The run that the probe reports, and the server's answers to the two reports.
  abbrev pub run : CombatResultReq
  run = new_probe_combat_result (login_code identity)

  abbrev pub first : CombatResultResp
  first = first_settlement (run_of (login_code identity))

  abbrev pub second : CombatResultResp
  second = second_settlement (run_of (login_code identity))

  abbrev pub Serves : ℕ → ℕ → Message → Message → World → World → Type 0
  Serves = Responds libs (kernel_of libs true)

  unfoldable pub logged : World
  logged = after_login libs (connected s) (login_code identity) token

  unfoldable pub saved_world : World
  saved_world = record logged {
    store = saved_store libs logged s.next_player_id c.saved_bytes logged.store;
  }

  unfoldable pub settled_world : World
  settled_world = record saved_world {
    store = record_settlement s.next_player_id run c.paid_bytes c.settled_bytes saved_world.store;
  }

  pub logging_in :
      Serves 1001 1002
        (Message.login_req (record { code = login_code identity }))
        (Message.login_resp (record {
          uid = s.next_player_id;
          nickname = default_nickname s.next_player_id;
          token = token;
        }))
        (connected s)
        logged
  unfolding kernel_of entry connected logged get is_auth_free type_of
  logging_in = record {
    entry = entry libs true 1002 MsgType.login_req true 1001;
    handled = refl;
    of_type = refl;
    answers_with = refl;
    small_ids = (omega arith, omega arith, λ e. absurd (omega arith));
    request_travels = c.login_req;
    response_travels = c.login_resp;
    passes = free-Passes libs true 1001 _ (connected s) refl;
    responds =
        login_newcomer libs (connected s) (login_code identity) token
          (development_exchange_code identity known) c.generated unknown.unused;
    outbox_empty = refl;
  }

  unfoldable pub session_of_player : SessionData
  session_of_player = record {
    uid = s.next_player_id;
    nickname = default_nickname s.next_player_id;
    token = token;
  }

  pub has_session : get s.next_player_id logged.store.sessions_by_uid ≡ some session_of_player
  unfolding logged session_of_player connected store_player
  has_session = get-put_self s.next_player_id _ _

  pub has_uid : logged.current.uid ≡ s.next_player_id
  unfolding logged identify bind set connected
  has_uid = refl

  pub loading :
      Serves 2003 2004
        (Message.load_archive_req record {})
        (Message.load_archive_resp (record { found = false; archive = none }))
        logged
        logged
  unfolding logged identify bind set connected get is_auth_free entry type_of store_player
  loading =
      player-Responds libs 2003 2004 (Message.load_archive_req record {}) session_of_player refl
        (omega arith, omega arith, λ e. absurd (omega arith)) refl c.load_req c.missing_resp
        unknown.positive has_session (load_missing libs logged unknown.no_archive) refl

  pub saving :
      Serves 2001 2002
        (Message.save_archive_req (record { archive = some new_probe_archive }))
        (Message.save_archive_resp (record { success = true }))
        logged
        saved_world
  unfolding logged saved_world identify bind set connected get is_auth_free entry type_of
  saving =
      player-Responds libs 2001 2002
        (Message.save_archive_req (record { archive = some new_probe_archive })) session_of_player
        refl (omega arith, omega arith, λ e. absurd (omega arith)) refl c.save_req c.save_resp
        unknown.positive has_session
        (save_given libs logged new_probe_archive c.saved_bytes c.saved) refl

  pub saved_row :
      get s.next_player_id saved_world.store.archives_by_uid
      ≡ some (
          row_of
            (λ x. libs.encoding.marshal_archive (some x))
            libs.encoding.unmarshal_archive
            s.next_player_id
            c.saved_bytes)
  unfolding saved_world logged identify bind set connected
  saved_row = get-put_self s.next_player_id _ _

  pub reloading :
      Serves 2003 2004
        (Message.load_archive_req record {})
        (Message.load_archive_resp (record { found = true; archive = some new_probe_archive }))
        saved_world
        saved_world
  unfolding logged saved_world identify bind set connected get is_auth_free entry type_of
  reloading =
      player-Responds libs 2003 2004 (Message.load_archive_req record {}) session_of_player refl
        (omega arith, omega arith, λ e. absurd (omega arith)) refl c.load_req c.found_resp
        unknown.positive has_session
        (load_row libs saved_world _ new_probe_archive saved_row c.loaded) refl

  pub valid : validate_combat_result libs.floats (some run) (some default_combat_config) ≡ none
  valid =
      (validate_combat_result_iff libs.floats default_combat_config run).1
        (new_probe_combat_result-IsAccepted libs.floats identity known c.kills_allowed)

  pub before_run :
      archive_before libs.encoding (get s.next_player_id saved_world.store.archives_by_uid)
      ≡ ok new_probe_archive
  unfolding archive_before
  before_run = rw (saved_row, archive_before, c.loaded) refl

  pub settles :
      Settling.settle libs.encoding s.next_player_id (some run) saved_world.store
      ≡ (ok first, settled_world.store)
  unfolding saved_world settled_world logged connected store_player
  settles =
      settle_first libs.encoding s.next_player_id run saved_world.store new_probe_archive first
        c.paid_bytes c.settled_bytes unknown.no_run before_run
        (ap (λ p. settle_archive (some new_probe_archive) run p) unknown.default_policy
          ∙ settle_archive_probe (login_code identity))
        c.paid c.settled

  pub settling :
      Serves 4001 4002
        (Message.combat_result_req run)
        (Message.combat_result_resp first)
        saved_world
        settled_world
  unfolding logged saved_world settled_world identify bind set connected get is_auth_free entry
      type_of
  settling =
      player-Responds libs 4001 4002 (Message.combat_result_req run) session_of_player refl
        (omega arith, omega arith, λ e. absurd (omega arith)) refl c.run_req c.first_resp
        unknown.positive has_session
        (settle_given libs saved_world run first settled_world.store valid settles) refl

  pub replays :
      Settling.settle libs.encoding s.next_player_id (some run) settled_world.store
      ≡ (ok second, settled_world.store)
  unfolding settled_world
  replays =
      settle_again libs.encoding s.next_player_id run settled_world.store first c.settled_bytes
        (record_settlement-run s.next_player_id run c.paid_bytes c.settled_bytes saved_world.store)
        c.replayed

  pub keeps_session :
      get s.next_player_id settled_world.store.sessions_by_uid ≡ some session_of_player
  unfolding settled_world saved_world
  keeps_session =
      ap (get s.next_player_id) (
        record_settlement-sessions s.next_player_id run c.paid_bytes c.settled_bytes
          saved_world.store)
      ∙ has_session

  pub replaying :
      Serves 4001 4002
        (Message.combat_result_req run)
        (Message.combat_result_resp second)
        settled_world
        settled_world
  unfolding logged saved_world settled_world identify bind set connected get is_auth_free entry
      type_of
  replaying =
      player-Responds libs 4001 4002 (Message.combat_result_req run) session_of_player refl
        (omega arith, omega arith, λ e. absurd (omega arith)) refl c.run_req c.second_resp
        unknown.positive keeps_session
        (settle_given libs settled_world run second settled_world.store valid replays) refl

  pub login_checked :
      check_login (
        Message.login_resp (record {
          uid = s.next_player_id;
          nickname = default_nickname s.next_player_id;
          token = token;
        }))
      ≡ ok tt
  unfolding check_login
  login_checked = rw (not_low libs true s.next_player_id unknown.positive, c.token_set) refl
