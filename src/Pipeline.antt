-- ===== src/Pipeline.antt =====
-- internal/pipeline/pipeline.go: chains of hooks that run before and after a handler.
pub mod Chain
use game_server_go.Base.{ℕ, List, [], ◌∷◌, ◌++◌, Option, none, some}
use game_server_go.Messages.{Message}
use game_server_go.Protocol.Errors.{GoError}

-- A context.Context as the program uses it: the session in it, by reference, and the identifier of
-- the message that is being handled.
pub record Context : Type 0 where
  pub session : Option ℕ
  pub msg_id : Option ℕ

-- The value of an interface{} that a hook passes on: a protobuf message or another value.
pub data Payload : Type 0 where
  message : Message → Payload
  opaque : ℕ → Payload

-- The results of a before hook, of an after hook and of a handler, each with the state `W` of
-- whatever they touch.
pub record Before (W : Type 0) : Type 0 where
  pub ctx : Context
  pub value : Payload
  pub error : Option GoError
  pub state : W

pub record After (W : Type 0) : Type 0 where
  pub value : Option Payload
  pub error : Option GoError
  pub state : W

abbrev pub BeforeHandler : Type 0 → Type 0
BeforeHandler W = Context → Payload → W → Before W

abbrev pub AfterHandler : Type 0 → Type 0
AfterHandler W = Context → Option Payload → Option GoError → W → After W

pub record Hooks (W : Type 0) : Type 0 where
  pub before : List (BeforeHandler W)
  pub after : List (AfterHandler W)

module _ {W : Type 0} where
  -- New
  unfoldable pub no_hooks : Hooks W
  no_hooks = record { before = []; after = [] }

  unfoldable pub add_before : BeforeHandler W → Hooks W → Hooks W
  add_before fn h = record h { before = h.before ++ (fn ∷ []) }

  unfoldable pub add_after : AfterHandler W → Hooks W → Hooks W
  add_after fn h = record h { after = h.after ++ (fn ∷ []) }

  -- The loop of ExecuteBefore returns at the first error.
  run_before : List (BeforeHandler W) → Context → Payload → W → Before W
  run_before [] ctx value w = record { ctx = ctx; value = value; error = none; state = w }
  run_before (fn ∷ rest) ctx value w =
      let r = fn ctx value w in
      let onward = run_before rest r.ctx r.value r.state in
      elim r.error [ none ↦ onward | some e ↦ r ]

  unfoldable pub execute_before : Hooks W → Context → Payload → W → Before W
  unfolding run_before
  execute_before h = run_before h.before

  run_after : List (AfterHandler W) → Context → Option Payload → Option GoError → W → After W
  run_after [] ctx value error w = record { value = value; error = error; state = w }
  run_after (fn ∷ rest) ctx value error w =
      let r = fn ctx value error w in run_after rest ctx r.value r.error r.state

  unfoldable pub execute_after : Hooks W → Context → Option Payload → Option GoError → W → After W
  unfolding run_after
  execute_after h = run_after h.after
