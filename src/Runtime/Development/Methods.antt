-- ===== src/Runtime/Development/Methods.antt =====
-- What the methods of the development server answer a player, with the store they leave.
use game_server_go.Base.{ℕ, ◌≡◌, refl, ap, true, false, none, some, ok}
use game_server_go.Base.Equality.{int_eq, bytes_eq}
use game_server_go.Base.Int.{ℤ}
use game_server_go.Base.Map.{get}
use game_server_go.Base.Text.{Bytes}
use game_server_go.Messages.{Message}
use game_server_go.Messages.Account.{PlayerArchive}
use game_server_go.Messages.Combat.{CombatResultReq, CombatResultResp}
use game_server_go.Kernel.{Reply, with_msg_id}
use game_server_go.Hooks.{context_uid}
use game_server_go.Store.Repository.{Player, Archive, is_not_found}
use game_server_go.Store.Memory
use game_server_go.Store.Memory.{MemoryStore, store_player}
use game_server_go.Store.Memory.Rows.{created}
use game_server_go.Store.Memory.Settling
use game_server_go.Login.Exchange.{development_exchange}
use game_server_go.Login.Service.{LoginResult, fresh_player, default_nickname}
use game_server_go.Login.Service.InMemory.{registered, logged_in, login_new}
use game_server_go.Login.Handler.{login_handler, identify}
use game_server_go.Game.{load_handler, load}
use game_server_go.Game.InMemory.{saved_by_lem, with_row}
use game_server_go.Combat.Config.{default_combat_config}
use game_server_go.Combat.Validator.{validate_combat_result}
use game_server_go.Combat.Service.Accepted.{settle_accepted}
use game_server_go.Combat.Service.InMemory.{memory_settlements}
use game_server_go.Combat.Handler.Results.Settled.{combat_result_settled}
use game_server_go.Runtime.Development.{World, Libraries, development_method, on_store, replied}
use game_server_go.Runtime.Development.Answers.{context_of}

module _ (libs : Libraries) (w : World) where
  -- The answer of the method for a request.
  abbrev pub method : ℕ → Message → Reply × World
  method id req = development_method libs true id (context_of id) req w

  abbrev pub answer : Message → MemoryStore → Reply × World
  answer resp s = (record { response = some resp; error = none }, record w { store = s })

  -- The store with the bytes of an archive saved.
  abbrev pub saved_store : ℤ → Bytes → MemoryStore → MemoryStore
  saved_store =
      with_row (λ x. libs.encoding.marshal_archive (some x)) libs.encoding.unmarshal_archive

  pub load_missing :
      get w.current.uid w.store.archives_by_uid ≡ none
      → method 2003 (Message.load_archive_req record {})
        ≡ answer (Message.load_archive_resp (record { found = false; archive = none })) w.store
  unfolding development_method on_store context_uid with_msg_id load_handler load Memory.get_archive
      Memory.or_not_found is_not_found
  load_missing missing = rw missing refl

  pub load_row :
      (row : Archive) (a : PlayerArchive)
      → get w.current.uid w.store.archives_by_uid ≡ some row
      → libs.encoding.unmarshal_archive row.blob ≡ ok a
      → method 2003 (Message.load_archive_req record {})
        ≡ answer (Message.load_archive_resp (record { found = true; archive = some a })) w.store
  unfolding development_method on_store context_uid with_msg_id load_handler load Memory.get_archive
      Memory.or_not_found
  load_row row a found parsed = rw (found, parsed) refl

  pub save_given :
      (a : PlayerArchive) (b : Bytes)
      → libs.encoding.marshal_archive (some a) ≡ ok b
      → method 2001 (Message.save_archive_req (record { archive = some a }))
        ≡ answer
            (Message.save_archive_resp (record { success = true }))
            (saved_store w.current.uid b w.store)
  unfolding development_method on_store context_uid with_msg_id
  save_given a b written =
      ap (λ out. on_store Message.save_archive_resp out w)
        (saved_by_lem (λ x. libs.encoding.marshal_archive (some x)) libs.encoding.unmarshal_archive
          w.current.uid a b w.store written)

  pub settle_given :
      (req : CombatResultReq) (r : CombatResultResp) (s : MemoryStore)
      → validate_combat_result libs.floats (some req) (some default_combat_config) ≡ none
      → Settling.settle libs.encoding w.current.uid (some req) w.store ≡ (ok r, s)
      → method 4001 (Message.combat_result_req req) ≡ answer (Message.combat_result_resp r) s
  unfolding development_method on_store context_uid with_msg_id
  settle_given req r s valid settled =
      ap (λ out. on_store Message.combat_result_resp out w)
        (combat_result_settled libs.floats default_combat_config libs.fault_text
          libs.encode_metadata (some (memory_settlements libs.encoding)) w.current.uid req r w.store
          s valid
          (settle_accepted libs.floats default_combat_config (memory_settlements libs.encoding)
            w.current.uid req r w.store s valid settled))

  -- The player that a first login makes of a code.
  abbrev pub newcomer : Bytes → Bytes → Player
  newcomer code token = record (registered code w.store.next_player_id) { token = token }

  abbrev newcomer_result : Bytes → Bytes → LoginResult
  newcomer_result code token = record {
    uid = w.store.next_player_id;
    nickname = default_nickname w.store.next_player_id;
    token = token;
  }

  -- The world after that login.
  abbrev pub after_login : Bytes → Bytes → World
  after_login code token = record w {
    current = identify (newcomer_result code token) w.current;
    store = logged_in (newcomer code token) (
        store_player (registered code w.store.next_player_id)
          (created (fresh_player code) w.store));
  }

  pub login_newcomer :
      (code token : Bytes)
      → development_exchange true code ≡ ok (record { open_id = code })
      → libs.token ≡ ok token
      → get code w.store.player_id_by_open_id ≡ none
      → method 1001 (Message.login_req (record { code = code })) ≡ (
        record {
          response = some (
              Message.login_resp (record {
                uid = w.store.next_player_id;
                nickname = default_nickname w.store.next_player_id;
                token = token;
              }));
          error = none;
        },
        after_login code token,
      )
  unfolding development_method with_msg_id login_handler replied identify
  login_newcomer code token exchanged generated free =
      rw (exchanged, generated, login_new code token w.store free) refl
