-- ===== src/Probe/Link/Carried.antt =====
-- What the session of cmd/devprobe/main.go asks of the server's store and of the libraries.
use game_server_go.Base.{ℕ, ◌<◌, ◌^◌, ◌≡◌, ◌≢◌, refl, true, false, [], none, some, ok}
use game_server_go.Base.Equality.{nat_eq, int_eq, bytes_eq, bytes_beq}
use game_server_go.Base.Int.{ℤ, pos, ◌≤ℤ◌, ◌<ℤ◌}
use game_server_go.Base.Map.{get}
use game_server_go.Base.Text.{Bytes}
use game_server_go.Messages.{Message, type_of}
use game_server_go.Protocol.Ids.{id_error}
use game_server_go.Kernel.{is_auth_free}
use game_server_go.Login.Service.{default_nickname}
use game_server_go.Combat.Config.{default_combat_config, settlement_reward_policy}
use game_server_go.Combat.Validator.{max_kills}
use game_server_go.Store.Repository.{SessionData}
use game_server_go.Store.Memory.{MemoryStore, key_eq}
use game_server_go.Store.Memory.Settling.{key_of}
use game_server_go.Runtime.Development.{World, Libraries}
use game_server_go.Runtime.Development.Answers.{Travels}
use game_server_go.Runtime.Development.Handlers.{kernel_of, handlers, entry, player-Passes}
use game_server_go.Runtime.Development.Methods.{method}
use game_server_go.Probe.{new_probe_archive, new_probe_combat_result}
use game_server_go.Probe.Link.{Responds}
use game_server_go.Probe.Link.Expected.{paid_archive, first_settlement, second_settlement}

-- The server has not seen the identity, and no archive or run of its next player.
pub record IsUnknown (code : Bytes) (s : MemoryStore) : Type 0 where
  pub unused : get code s.player_id_by_open_id ≡ none
  pub positive : pos 0 <ℤ s.next_player_id
  pub no_archive : get s.next_player_id s.archives_by_uid ≡ none
  pub no_run : get (key_of s.next_player_id (new_probe_combat_result code)) s.settlements ≡ none
  pub default_policy : s.settlement_policy ≡ settlement_reward_policy default_combat_config

-- The responses of the session, whose player is `uid`.
abbrev pub run_of : Bytes → Bytes
run_of code = (new_probe_combat_result code).run_id

-- What the session asks of the libraries: a token, and encodings that give back what is stored and
-- what is sent.
pub record Carries (libs : Libraries) (code token : Bytes) (uid : ℤ) : Type 0 where
  pub generated : libs.token ≡ ok token
  pub token_set : bytes_beq token [] ≡ false
  pub kills_allowed : pos 2 ≤ℤ max_kills libs.floats default_combat_config (pos 2)
  pub saved_bytes : Bytes
  pub saved : libs.encoding.marshal_archive (some new_probe_archive) ≡ ok saved_bytes
  pub loaded : libs.encoding.unmarshal_archive saved_bytes ≡ ok new_probe_archive
  pub paid_bytes : Bytes
  pub paid : libs.encoding.marshal_archive (some paid_archive) ≡ ok paid_bytes
  pub settled_bytes : Bytes
  pub settled : libs.encoding.marshal_response (first_settlement (run_of code)) ≡ ok settled_bytes
  pub replayed :
      libs.encoding.unmarshal_response settled_bytes ≡ ok (first_settlement (run_of code))
  pub login_req : Travels libs (Message.login_req (record { code = code }))
  pub login_resp :
      Travels libs
        (Message.login_resp (record { uid = uid; nickname = default_nickname uid; token = token }))
  pub load_req : Travels libs (Message.load_archive_req record {})
  pub missing_resp :
      Travels libs (Message.load_archive_resp (record { found = false; archive = none }))
  pub found_resp :
      Travels libs
        (Message.load_archive_resp (record { found = true; archive = some new_probe_archive }))
  pub save_req :
      Travels libs (Message.save_archive_req (record { archive = some new_probe_archive }))
  pub save_resp : Travels libs (Message.save_archive_resp (record { success = true }))
  pub run_req : Travels libs (Message.combat_result_req (new_probe_combat_result code))
  pub first_resp : Travels libs (Message.combat_result_resp (first_settlement (run_of code)))
  pub second_resp : Travels libs (Message.combat_result_resp (second_settlement (run_of code)))

-- The server's kernel has a handler for the request, which responds.
module _ (libs : Libraries) {w w' : World} {resp : Message} where
  -- Of a player with a session in the store.
  pub player-Responds :
      (req_id resp_id : ℕ) (req : Message) (d : SessionData)
      → get req_id (handlers libs true) ≡ some (entry libs true resp_id (type_of req) false req_id)
      → (req_id < 2 ^ 16) × (resp_id < 2 ^ 16) × (resp_id ≢ id_error)
      → is_auth_free (handlers libs true) req_id ≡ false
      → Travels libs req
      → Travels libs resp
      → pos 0 <ℤ w.current.uid
      → get w.current.uid w.store.sessions_by_uid ≡ some d
      → method libs w req_id req ≡ (record { response = some resp; error = none }, w')
      → w'.outbox ≡ []
      → Responds libs (kernel_of libs true) req_id resp_id req resp w w'
  unfolding kernel_of entry
  player-Responds req_id resp_id req d handled small guarded asks replies positive known done
        empty =
      record {
        entry = entry libs true resp_id (type_of req) false req_id;
        handled = handled;
        of_type = refl;
        answers_with = refl;
        small_ids = small;
        request_travels = asks;
        response_travels = replies;
        passes = player-Passes libs true req_id req w d guarded positive known;
        responds = done;
        outbox_empty = empty;
      }
