-- ===== src/Runtime/Development/Handlers.antt =====
-- The kernel that newRuntime makes in development.
use game_server_go.Base.{ℕ, ◌≡◌, refl, ap, true, false, Bool, List, [], ◌∷◌, none, some, ok, arith}
use game_server_go.Base.Equality.{nat_eq, int_eq}
use game_server_go.Base.Map.{Map, get, put, delete}
use game_server_go.Messages.{MsgType, same_type}
use game_server_go.Hooks.{auth, context_uid}
use game_server_go.Store.Memory
use game_server_go.Messages.{Message}
use game_server_go.Base.Int.{ℤ, pos, ◌<ℤ◌, leb_ℤ}
use game_server_go.Store.Repository.{SessionData}
use game_server_go.Runtime.Development.Answers.{Passes, context_of}
use game_server_go.Kernel.{
  is_auth_free, with_msg_id, msg_id_from, Kernel, HandlerEntry, new_kernel, register,
  register_route, apply_options, auth_free_option,
}
use game_server_go.Pipeline.{
  BeforeHandler, AfterHandler, Before, message, add_before, execute_before, execute_after,
}
use game_server_go.Protocol.Routes.{route_for}
use game_server_go.Runtime.{register_all, payment_route, development_routes, development_hooks}
use game_server_go.Runtime.Start.{new_runtime}
use game_server_go.Runtime.Development.{
  World, Libraries, development_runtime, development_method, uid_of, world_sessions,
}

module _ (libs : Libraries) (login_enabled : Bool) where
  unfoldable pub entry : ℕ → MsgType → Bool → ℕ → HandlerEntry World
  entry resp_id req_type auth_free req_id = record {
    resp_id = resp_id;
    req_type = req_type;
    fn = development_method libs login_enabled req_id;
    auth_free = auth_free;
  }

  -- The table after the seven registrations, the last of them first.
  abbrev pub handlers : Map ℕ (HandlerEntry World)
  unfolding entry
  handlers =
      (4011, entry 4012 MsgType.get_player_stats_req false 4011)
      ∷ (4001, entry 4002 MsgType.combat_result_req false 4001)
      ∷ (2003, entry 2004 MsgType.load_archive_req false 2003)
      ∷ (2001, entry 2002 MsgType.save_archive_req false 2001)
      ∷ (1003, entry 1004 MsgType.heartbeat_req true 1003)
      ∷ (1001, entry 1002 MsgType.login_req true 1001)
      ∷ (5001, entry 5002 MsgType.create_order_req false 5001)
      ∷ []

  unfoldable pub kernel_of : Kernel World
  unfolding entry uid_of
  kernel_of = record {
    handlers = handlers;
    hooks = record { before = auth uid_of handlers world_sessions ∷ []; after = [] };
  }

  pub development_runtime_lem :
      (w : World)
      → (development_runtime libs login_enabled w).0
        ≡ ok (record { kernel = kernel_of; closers = []; development = true })
  unfolding kernel_of development_runtime new_runtime register_all payment_route development_routes
      development_hooks new_kernel register_route register apply_options auth_free_option get put
      delete route_for same_type development_method add_before
  development_runtime_lem w = refl

  abbrev admitted : ℕ → Message → World → Before World
  admitted id req w = record { ctx = context_of id; value = message req; error = none; state = w }

  -- What follows the only hook.
  abbrev onward : Before World → Before World
  onward b = elim b.error [
    | none ↦ record { ctx = b.ctx; value = b.value; error = none; state = b.state }
    | some e ↦ b
  ]

  -- A hook that stands alone and passes.
  alone :
      (id : ℕ) (req : Message) (w : World) (fn : BeforeHandler World)
      (after : List (AfterHandler World))
      → fn (context_of id) (message req) w ≡ admitted id req w
      → execute_before (record { before = fn ∷ []; after = after }) (context_of id) (message req) w
        ≡ admitted id req w
  unfolding execute_before
  alone id req w fn after e = ap onward e

  auth_free_lem :
      (id : ℕ) (req : Message) (w : World)
      → is_auth_free handlers id ≡ true
      → auth uid_of handlers world_sessions (context_of id) (message req) w ≡ admitted id req w
  unfolding auth msg_id_from with_msg_id
  auth_free_lem id req w free = rw free refl

  pub not_low : (uid : ℤ) → pos 0 <ℤ uid → leb_ℤ uid (pos 0) ≡ false
  unfolding leb_ℤ
  not_low uid h = ground arith

  auth_player :
      (id : ℕ) (req : Message) (w : World) (d : SessionData)
      → is_auth_free handlers id ≡ false
      → pos 0 <ℤ w.current.uid
      → get w.current.uid w.store.sessions_by_uid ≡ some d
      → auth uid_of handlers world_sessions (context_of id) (message req) w ≡ admitted id req w
  unfolding auth msg_id_from with_msg_id context_uid uid_of Memory.get_session
  auth_player id req w d guarded positive known =
      rw (guarded, not_low w.current.uid positive, known) refl

  -- A message that needs no authentication passes the hooks.
  pub free-Passes :
      (id : ℕ) (req : Message) (w : World)
      → is_auth_free handlers id ≡ true
      → Passes libs kernel_of id req w
  unfolding kernel_of execute_after
  free-Passes id req w free = record {
    before = alone id req w _ _ (auth_free_lem id req w free);
    after = λ v e s. refl;
  }

  -- So does every other message of a player with a session in the store.
  pub player-Passes :
      (id : ℕ) (req : Message) (w : World) (d : SessionData)
      → is_auth_free handlers id ≡ false
      → pos 0 <ℤ w.current.uid
      → get w.current.uid w.store.sessions_by_uid ≡ some d
      → Passes libs kernel_of id req w
  unfolding kernel_of execute_after
  player-Passes id req w d guarded positive known = record {
    before = alone id req w _ _ (auth_player id req w d guarded positive known);
    after = λ v e s. refl;
  }
