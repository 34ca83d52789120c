-- ===== src/Kernel.antt =====
-- internal/kernel/kernel.go: the table of handlers and the dispatch of one frame.
pub mod Registry
pub mod Dispatch
use game_server_go.Base.{
  ℕ, Bool, true, false, List, [], ◌∷◌, Option, none, some, Result, ok, err, ◌==◌, if◌then◌else◌,
}
use game_server_go.Base.Equality.{nat_eq}
use game_server_go.Base.Int.{ℤ, wrap32}
use game_server_go.Base.Map.{Map, get, put}
use game_server_go.Base.Text.{Bytes}
use game_server_go.Messages.{Message, MsgType, same_type}
use game_server_go.Messages.Account.{ErrorResp}
use game_server_go.Protocol.Codec.{Frame, decode}
use game_server_go.Protocol.Errors.{GoError, biz, internal, err_internal, err_invalid_param}
use game_server_go.Protocol.Ids.{id_error}
use game_server_go.Protocol.Routes.{Route, route_for}
use game_server_go.Pipeline.{
  Context, Payload, message, opaque, Hooks, Before, After, no_hooks, execute_before, execute_after,
}

-- What a handler returns: a response that may be nil and an error that may be nil.
pub record Reply : Type 0 where
  pub response : Option Message
  pub error : Option GoError

abbrev pub Handler : Type 0 → Type 0
Handler W = Context → Message → W → Reply × W

-- The value that is registered as a handler. Only a function from a context and a generated request
-- to a generated response and an error passes the reflection checks of Register.
pub data HandlerValue (W : Type 0) : Type 0 where
  typed : MsgType → MsgType → Handler W → HandlerValue W
  ill_typed : HandlerValue W

pub record HandlerEntry (W : Type 0) : Type 0 where
  pub resp_id : ℕ
  pub req_type : MsgType
  pub fn : Handler W
  pub auth_free : Bool

pub record Kernel (W : Type 0) : Type 0 where
  pub handlers : Map ℕ (HandlerEntry W)
  pub hooks : Hooks W

-- The panics of registration.
pub data Panic : Type 0 where
  duplicate_handler unknown_route bad_handler type_mismatch : Panic

abbrev pub RegisterOption : Type 0 → Type 0
RegisterOption W = HandlerEntry W → HandlerEntry W

module _ {W : Type 0} where
  -- New
  unfoldable pub new_kernel : Option (Hooks W) → Kernel W
  unfolding no_hooks
  new_kernel none = record { handlers = []; hooks = no_hooks }
  new_kernel (some hooks) = record { handlers = []; hooks = hooks }

  -- AuthFree
  unfoldable pub auth_free_option : RegisterOption W
  auth_free_option e = record e { auth_free = true }

  unfoldable pub apply_options : List (RegisterOption W) → HandlerEntry W → HandlerEntry W
  apply_options [] e = e
  apply_options (opt ∷ opts) e = apply_options opts (opt e)

  -- k.handlers[reqID] = entry, with the options applied.
  abbrev pub store_entry :
      Kernel W → ℕ → Route → MsgType → Handler W → List (RegisterOption W) → Kernel W
  store_entry k req_id route req fn opts = record k {
    handlers = put req_id (apply_options opts entry) k.handlers;
  }
    where
      entry : HandlerEntry W
      entry = record { resp_id = route.response_id; req_type = req; fn = fn; auth_free = false }

  install :
      Kernel W → ℕ → Route → HandlerValue W → List (RegisterOption W) → Result Panic (Kernel W)
  install k req_id route ill_typed opts = err bad_handler
  install k req_id route (typed req resp fn) opts =
      if same_type req route.request_prototype
      then (if same_type resp route.response_prototype
          then ok (store_entry k req_id route req fn opts)
          else err type_mismatch)
      else err type_mismatch

  register_found :
      Kernel W
      → ℕ
      → ℕ
      → Option Route
      → HandlerValue W
      → List (RegisterOption W)
      → Result Panic (Kernel W)
  unfolding install
  register_found k req_id resp_id none fn opts = err unknown_route
  register_found k req_id resp_id (some route) fn opts =
      if route.response_id == resp_id then install k req_id route fn opts else err unknown_route

  unfoldable pub register :
      Kernel W → ℕ → ℕ → HandlerValue W → List (RegisterOption W) → Result Panic (Kernel W)
  unfolding register_found
  register k req_id resp_id fn opts = elim (get req_id k.handlers) [
    | some e ↦ err duplicate_handler
    | none ↦ register_found k req_id resp_id (route_for req_id) fn opts
  ]

  unfoldable pub register_route :
      Kernel W → ℕ → HandlerValue W → List (RegisterOption W) → Result Panic (Kernel W)
  register_route k req_id fn opts = elim (route_for req_id) [
    | none ↦ err unknown_route
    | some route ↦ register k req_id route.response_id fn opts
  ]

  entry_auth_free : Option (HandlerEntry W) → Bool
  entry_auth_free none = false
  entry_auth_free (some e) = e.auth_free

  unfoldable pub is_auth_free : Map ℕ (HandlerEntry W) → ℕ → Bool
  unfolding entry_auth_free
  is_auth_free handlers msg_id = entry_auth_free (get msg_id handlers)

  unfoldable pub has_handler : Kernel W → ℕ → Bool
  has_handler k msg_id = elim (get msg_id k.handlers) [ none ↦ false | some e ↦ true ]

-- withMsgID and MsgIDFromContext
unfoldable pub with_msg_id : Context → ℕ → Context
with_msg_id ctx id = record ctx { msg_id = some id }

unfoldable pub msg_id_from : Context → ℕ
msg_id_from ctx = elim ctx.msg_id [ none ↦ 0 | some id ↦ id ]
