-- ===== src/Session.antt =====
-- internal/session/session.go: the identity and the business state of one connection's player.
pub mod Lifecycle
use game_server_go.Base.{ℕ, List, [], ◌∷◌, ◌++◌, Option, none, some, Bool}
use game_server_go.Base.Int.{ℤ, pos, ltb_ℤ}
use game_server_go.Base.Equality.{Eq, bytes_eq}
use game_server_go.Base.Map.{Map, get, put}
use game_server_go.Base.Text.{Bytes}
use game_server_go.Messages.{Message}

-- interface{}: GetString tells a string from anything else.
pub data Value : Type 0 where
  text : Bytes → Value
  other : ℕ → Value

-- The callbacks are of a type `C`, and `run` below says what calling one does. The connection under
-- a session, which has no state of its own here, is the parameter of the code that replies.
pub record Session (C : Type 0) : Type 0 where
  pub uid : ℤ
  pub data_map : Map Bytes Value
  pub on_close : List C

-- v.(string) where the key is there; the empty string otherwise.
as_text : Option Value → Bytes
as_text none = []
as_text (some (text t)) = t
as_text (some (other n)) = []

module _ {C : Type 0} where
  -- New
  unfoldable pub new_session : Session C
  new_session = record { uid = pos 0; data_map = []; on_close = [] }

  unfoldable pub bind : ℤ → Session C → Session C
  bind uid s = record s { uid = uid }

  unfoldable pub is_bound : Session C → Bool
  unfolding ltb_ℤ
  is_bound s = ltb_ℤ (pos 0) s.uid

  unfoldable pub set : Bytes → Value → Session C → Session C
  set key value s = record s { data_map = put key value s.data_map }

  unfoldable pub get_value : Bytes → Session C → Option Value
  get_value key s = get key s.data_map

  unfoldable pub get_string : Bytes → Session C → Bytes
  unfolding as_text get_value
  get_string key s = as_text (get_value key s)

  unfoldable pub on_close_add : C → Session C → Session C
  on_close_add callback s = record s { on_close = s.on_close ++ (callback ∷ []) }

run_all {ℓ} : {C : Type 0} {W : Type ℓ} → (C → W → W) → List C → W → W
run_all run [] w = w
run_all run (callback ∷ rest) w = run_all run rest (run callback w)

-- Close: the callbacks, copied first, run in the order of their registration.
unfoldable pub close {ℓ} : {C : Type 0} {W : Type ℓ} → (C → W → W) → Session C → W → W
unfolding run_all
close run s w = run_all run s.on_close w

-- Conn: what a session needs of its connection, over a state `W`; an error is the connection's own.
pub record Conn (E W : Type 0) : Type 0 where
  pub conn_reply : ℕ → ℕ → Option Message → W → Option E × W
  pub conn_push : ℕ → Option Message → W → Option E × W

module _ {E W : Type 0} (conn : Conn E W) where
  -- Session.Push and Session.Reply
  unfoldable pub session_push : ℕ → Option Message → W → Option E × W
  session_push msg_id payload w = conn.conn_push msg_id payload w

  unfoldable pub session_reply : ℕ → ℕ → Option Message → W → Option E × W
  session_reply seq msg_id payload w = conn.conn_reply seq msg_id payload w
