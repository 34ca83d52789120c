-- ===== src/Transport/Callers.antt =====
-- internal/transport/hub.go: NewHub and the methods that a goroutine other than the loop calls. Each offers
-- its request to the loop in a select with closeAll and done, and takes the loop's answer.
pub mod Steps
pub mod Cleared
pub mod Known
pub mod Ended
pub mod Reaching
use game_server_go.Base.{
  ℕ, Bool, true, false, [], Option, none, some, Result, ok, err, if◌then◌else◌,
}
use game_server_go.Base.Int.{ℤ}
use game_server_go.Base.Text.{Bytes}
use game_server_go.Messages.{Message}
use game_server_go.Protocol.Codec.{CodecError, encode}
use game_server_go.Transport.{
  Connection, Hub, Event, Answer, nothing, delivered, online, register_connection,
  unregister_connection, broadcast, push_to_uid, count, close_all, hub_step,
}

-- Hub: what the loop keeps, whether it was started, and whether closeAll is closed.
pub record SharedHub : Type 0 where
  pub loop : Hub
  pub started : Bool
  pub closing : Bool

-- NewHub
unfoldable pub new_hub : SharedHub
new_hub = record {
  loop = record { connections = []; stopped = []; done = false };
  started = false;
  closing = false;
}

-- start: the loop is started once.
unfoldable pub start_loop : SharedHub → SharedHub
start_loop h = record h { started = true }

unfoldable received : Event → SharedHub → Option Answer × SharedHub
received e h = let r = hub_step e h.loop in (some r.0, record h { loop = r.1 })

-- The select of a caller. Where the loop has ended its channels take nothing; where closeAll is open
-- and the loop runs, the loop receives; between the two it may, and `taken` says whether it does.
unfoldable offer : Bool → Event → SharedHub → Option Answer × SharedHub
unfolding received
offer taken e h =
    if h.loop.done
    then (none, h)
    else if h.closing
    then (if taken then received e h else (none, h))
    else received e h

unfoldable was_delivered : Option Answer → Bool
was_delivered (some (delivered b)) = b
was_delivered _ = false

unfoldable was_received : Option Answer → Bool
was_received (some answer) = true
was_received none = false

unfoldable online_of : Option Answer → ℕ
online_of (some (online n)) = n
online_of _ = 0

unfoldable push_wire : Bool → ℤ → Result CodecError Bytes → SharedHub → Bool × SharedHub
unfolding offer was_delivered start_loop
push_wire taken uid (err e) h = (false, h)
push_wire taken uid (ok wire) h =
    let r = offer taken (push_to_uid uid wire) (start_loop h) in (was_delivered r.0, r.1)

-- PushToUID; proto.Marshal is the parameter `marshal`.
unfoldable pub push_message_to_uid :
    (Message → Option Bytes) → Bool → ℤ → ℕ → Option Message → SharedHub → Bool × SharedHub
unfolding push_wire
push_message_to_uid marshal taken uid msg_id payload h =
    push_wire taken uid (encode marshal msg_id 0 payload) h

-- Register
unfoldable pub register : Bool → Connection → SharedHub → Bool × SharedHub
unfolding offer was_received start_loop
register taken c h =
    let r = offer taken (register_connection c) (start_loop h) in (was_received r.0, r.1)

-- Unregister
unfoldable pub unregister : Bool → ℕ → SharedHub → SharedHub
unfolding offer start_loop
unregister taken a h = (offer taken (unregister_connection a) (start_loop h)).1

-- OnlineCount
unfoldable pub online_count : Bool → SharedHub → ℕ × SharedHub
unfolding offer online_of start_loop
online_count taken h = let r = offer taken count (start_loop h) in (online_of r.0, r.1)

unfoldable broadcast_wire : Bool → Result CodecError Bytes → SharedHub → SharedHub
unfolding offer start_loop
broadcast_wire taken (err e) h = h
broadcast_wire taken (ok wire) h = (offer taken (broadcast wire) (start_loop h)).1

-- Broadcast
unfoldable pub broadcast_message :
    (Message → Option Bytes) → Bool → ℕ → Option Message → SharedHub → SharedHub
unfolding broadcast_wire
broadcast_message marshal taken msg_id payload h =
    broadcast_wire taken (encode marshal msg_id 0 payload) h

-- Shutdown up to its wait: closeAll is closed once.
unfoldable pub begin_shutdown : SharedHub → SharedHub
unfolding start_loop
begin_shutdown h = record (start_loop h) { closing = true }

-- The loop takes the closing of closeAll, after which Shutdown's wait for done is over.
unfoldable pub end_shutdown : SharedHub → SharedHub
end_shutdown h = if h.closing then record h { loop = (hub_step close_all h.loop).1 } else h

-- A call, with whether the loop receives it in the case that is open.
pub data Call : Type 0 where
  calls_push : Bool → ℤ → ℕ → Option Message → Call
  calls_register : Bool → Connection → Call
  calls_unregister : Bool → ℕ → Call
  calls_count : Bool → Call
  calls_broadcast : Bool → ℕ → Option Message → Call
  begins_shutdown ends_shutdown : Call

pub data Reply : Type 0 where
  says : Bool → Reply
  counts : ℕ → Reply
  returns : Reply

unfoldable pub call : (Message → Option Bytes) → Call → SharedHub → Reply × SharedHub
unfolding push_message_to_uid register unregister online_count broadcast_message begin_shutdown
    end_shutdown
call marshal (calls_push taken uid msg_id payload) h =
    let r = push_message_to_uid marshal taken uid msg_id payload h in (says r.0, r.1)
call marshal (calls_register taken c) h = let r = register taken c h in (says r.0, r.1)
call marshal (calls_unregister taken a) h = (returns, unregister taken a h)
call marshal (calls_count taken) h = let r = online_count taken h in (counts r.0, r.1)
call marshal (calls_broadcast taken msg_id payload) h =
    (returns, broadcast_message marshal taken msg_id payload h)
call marshal begins_shutdown h = (returns, begin_shutdown h)
call marshal ends_shutdown h = (returns, end_shutdown h)
