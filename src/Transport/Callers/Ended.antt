-- ===== src/Transport/Callers/Ended.antt =====
-- After Shutdown of hub.go: nothing is received, and every connection has been stopped.
use game_server_go.Base.{
  ℕ, inl, inr, ◌≡◌, refl, ap, ◌∙◌, Bool, true, false, List, [], ◌∷◌, Option, none, Result, ok, err,
  All, arith,
}
use game_server_go.Base.Int.{ℤ}
use game_server_go.Base.Text.{Bytes}
use game_server_go.Messages.{Message}
use game_server_go.Protocol.Codec.{CodecError, encode}
use game_server_go.Transport.{
  Connection, Hub, Event, register_connection, unregister_connection, broadcast, push_to_uid, count,
  close_all, handle, step_unless, hub_step,
}
use game_server_go.Transport.Callers.{
  SharedHub, Call, Reply, says, counts, returns, calls_push, calls_register, calls_unregister,
  calls_count, calls_broadcast, begins_shutdown, ends_shutdown, received, offer, was_delivered,
  was_received, online_of, push_wire, broadcast_wire, push_message_to_uid, register, unregister,
  online_count, broadcast_message, start_loop, new_hub, begin_shutdown, end_shutdown, call,
}
use game_server_go.Transport.Callers.Steps.{call_keeps}
use game_server_go.Transport.Callers.Cleared.{IsClosed, IsCleared, hub_step-IsCleared}
use game_server_go.Transport.Callers.Known.{Knows, IsKnown, hub_step-IsKnown, each_known}

module _ (marshal : Message → Option Bytes) where
  -- Calls one after the other, with what each returns.
  unfoldable pub run_calls : List Call → SharedHub → List Reply × SharedHub
  run_calls [] h = ([], h)
  run_calls (c ∷ cs) h =
      let first = call marshal c h in let rest = run_calls cs first.1 in (first.0 ∷ rest.0, rest.1)

  -- What every event keeps of the loop, the calls keep.
  run_calls_keeps :
      (P : Hub → Type 0)
      → ((e : Event) (h : Hub) → P h → P (hub_step e h).1)
      → (cs : List Call) (h : SharedHub) → P h.loop
      → P (run_calls cs h).1.loop
  unfolding run_calls
  run_calls_keeps P keeps [] h p = p
  run_calls_keeps P keeps (c ∷ cs) h p =
      run_calls_keeps P keeps cs (call marshal c h).1 (call_keeps P keeps marshal c h p)

none_known : (a : ℕ) (cs : List Connection) → cs ≡ [] → Knows a cs → ⊥
none_known a [] e k = k
none_known a (c ∷ cs) e k = absurd cc

was_stopped : (a : ℕ) (h : Hub) → h.connections ≡ [] → IsKnown a h → Knows a h.stopped
was_stopped a h none_left (inl k) = absurd (none_known a h.connections none_left k)
was_stopped a h none_left (inr k) = k

-- What a call returns that the loop does not receive.
abbrev pub refusal : Call → Reply
refusal (calls_push taken uid msg_id payload) = says false
refusal (calls_register taken c) = says false
refusal (calls_unregister taken a) = returns
refusal (calls_count taken) = counts 0
refusal (calls_broadcast taken msg_id payload) = returns
refusal begins_shutdown = returns
refusal ends_shutdown = returns

abbrev pub refusals : List Call → List Reply
refusals [] = []
refusals (c ∷ cs) = refusal c ∷ refusals cs

-- A call that changes nothing and is refused.
abbrev IsRefused : Call → SharedHub → Reply × SharedHub → Type 0
IsRefused c h r = (r.0 ≡ refusal c) × (r.1.loop ≡ h.loop)

offer_ended :
    (taken : Bool) (e : Event) (h : SharedHub) → h.loop.done ≡ true → offer taken e h ≡ (none, h)
unfolding offer
offer_ended taken e h off = ground arith

hub_step_ended : (e : Event) (h : Hub) → h.done ≡ true → (hub_step e h).1 ≡ h
unfolding hub_step step_unless
hub_step_ended e h off = ap (λ over. (step_unless over e h).1) off

push_wire_ended :
    (taken : Bool) (uid : ℤ) (w : Result CodecError Bytes) (h : SharedHub)
    → h.loop.done ≡ true
    → ((push_wire taken uid w h).0 ≡ false) × ((push_wire taken uid w h).1.loop ≡ h.loop)
unfolding push_wire start_loop was_delivered
push_wire_ended taken uid (err e) h off = (refl, refl)
push_wire_ended taken uid (ok wire) h off =
    let late = offer_ended taken (push_to_uid uid wire) (start_loop h) off in
    (ap (λ r. was_delivered r.0) late, ap (λ r. r.1.loop) late)

broadcast_wire_ended :
    (taken : Bool) (w : Result CodecError Bytes) (h : SharedHub)
    → h.loop.done ≡ true
    → (broadcast_wire taken w h).loop ≡ h.loop
unfolding broadcast_wire start_loop
broadcast_wire_ended taken (err e) h off = refl
broadcast_wire_ended taken (ok wire) h off =
    ap (λ r. r.1.loop) (offer_ended taken (broadcast wire) (start_loop h) off)

call_ended :
    (marshal : Message → Option Bytes) (c : Call) (h : SharedHub)
    → h.loop.done ≡ true
    → IsRefused c h (call marshal c h)
unfolding call push_message_to_uid register unregister online_count broadcast_message begin_shutdown
    end_shutdown start_loop was_received online_of
call_ended marshal (calls_push taken uid msg_id payload) h off =
    let late = push_wire_ended taken uid (encode marshal msg_id 0 payload) h off in
    (ap says late.0, late.1)
call_ended marshal (calls_register taken c) h off =
    let late = offer_ended taken (register_connection c) (start_loop h) off in
    (ap (λ r. says (was_received r.0)) late, ap (λ r. r.1.loop) late)
call_ended marshal (calls_unregister taken a) h off =
    (refl, ap (λ r. r.1.loop) (offer_ended taken (unregister_connection a) (start_loop h) off))
call_ended marshal (calls_count taken) h off =
    let late = offer_ended taken count (start_loop h) off in
    (ap (λ r. counts (online_of r.0)) late, ap (λ r. r.1.loop) late)
call_ended marshal (calls_broadcast taken msg_id payload) h off =
    (refl, broadcast_wire_ended taken (encode marshal msg_id 0 payload) h off)
call_ended marshal begins_shutdown h off = (refl, refl)
call_ended marshal ends_shutdown h off = (refl, ground (arith, hub_step_ended close_all h.loop off))

offer_closing : (taken : Bool) (e : Event) (h : SharedHub) → (offer taken e h).1.closing ≡ h.closing
unfolding offer received
offer_closing taken e h = ground arith

push_wire_closing :
    (taken : Bool) (uid : ℤ) (w : Result CodecError Bytes) (h : SharedHub)
    → (push_wire taken uid w h).1.closing ≡ h.closing
unfolding push_wire start_loop
push_wire_closing taken uid (err e) h = refl
push_wire_closing taken uid (ok wire) h = offer_closing taken (push_to_uid uid wire) (start_loop h)

broadcast_wire_closing :
    (taken : Bool) (w : Result CodecError Bytes) (h : SharedHub)
    → (broadcast_wire taken w h).closing ≡ h.closing
unfolding broadcast_wire start_loop
broadcast_wire_closing taken (err e) h = refl
broadcast_wire_closing taken (ok wire) h = offer_closing taken (broadcast wire) (start_loop h)

-- closeAll stays closed.
call_closing :
    (marshal : Message → Option Bytes) (c : Call) (h : SharedHub)
    → h.closing ≡ true
    → (call marshal c h).1.closing ≡ true
unfolding call push_message_to_uid register unregister online_count broadcast_message begin_shutdown
    end_shutdown start_loop
call_closing marshal (calls_push taken uid msg_id payload) h k =
    push_wire_closing taken uid (encode marshal msg_id 0 payload) h ∙ k
call_closing marshal (calls_register taken c) h k =
    offer_closing taken (register_connection c) (start_loop h) ∙ k
call_closing marshal (calls_unregister taken a) h k =
    offer_closing taken (unregister_connection a) (start_loop h) ∙ k
call_closing marshal (calls_count taken) h k = offer_closing taken count (start_loop h) ∙ k
call_closing marshal (calls_broadcast taken msg_id payload) h k =
    broadcast_wire_closing taken (encode marshal msg_id 0 payload) h ∙ k
call_closing marshal begins_shutdown h k = refl
call_closing marshal ends_shutdown h k = ground arith

close_all_done : (h : Hub) → (hub_step close_all h).1.done ≡ true
unfolding hub_step step_unless handle
close_all_done h = ground arith

end_shutdown_done : (h : SharedHub) → h.closing ≡ true → (end_shutdown h).loop.done ≡ true
unfolding end_shutdown
end_shutdown_done h k = ground (arith, close_all_done h.loop)

module _ (marshal : Message → Option Bytes) where
  run_calls_closing :
      (cs : List Call) (h : SharedHub)
      → h.closing ≡ true
      → (run_calls marshal cs h).1.closing ≡ true
  unfolding run_calls
  run_calls_closing [] h k = k
  run_calls_closing (c ∷ cs) h k =
      run_calls_closing cs (call marshal c h).1 (call_closing marshal c h k)

  run_calls_ended :
      (cs : List Call) (h : SharedHub)
      → h.loop.done ≡ true
      → ((run_calls marshal cs h).0 ≡ refusals cs) × ((run_calls marshal cs h).1.loop ≡ h.loop)
  unfolding run_calls
  run_calls_ended [] h off = (refl, refl)
  run_calls_ended (c ∷ cs) h off =
      let late = call_ended marshal c h off in
      let rest = run_calls_ended cs (call marshal c h).1 (ap (λ l. l.done) late.1 ∙ off) in
      (rw (late.0, rest.0) refl, rest.1 ∙ late.1)

-- A new hub on which the calls `before` have run, then Shutdown up to its wait, then the calls that
-- come while the loop has not yet taken the closing, and then the end of Shutdown.
abbrev pub shut_down_hub : (Message → Option Bytes) → List Call → List Call → SharedHub
shut_down_hub marshal before between =
    let running = (run_calls marshal before new_hub).1 in
    end_shutdown (run_calls marshal between (begin_shutdown running)).1

-- From when Shutdown begins to when it returns, the loop keeps what every event keeps.
shut_down_hub_keeps :
    (P : Hub → Type 0)
    → ((e : Event) (h : Hub) → P h → P (hub_step e h).1)
    → (marshal : Message → Option Bytes) (before between : List Call)
    → P (run_calls marshal before new_hub).1.loop
    → P (shut_down_hub marshal before between).loop
unfolding begin_shutdown start_loop call
shut_down_hub_keeps P keeps marshal before between p =
    let stopping = begin_shutdown (run_calls marshal before new_hub).1 in
    call_keeps P keeps marshal ends_shutdown (run_calls marshal between stopping).1
      (run_calls_keeps marshal P keeps between stopping p)

-- Whatever calls are made before Shutdown, and whichever of those made while it runs the loop still
-- receives: when Shutdown returns, the hub has no connection, every one that it had when Shutdown began
-- is among those that it has stopped, and all of these are closed; and any calls after it, in any
-- order, are refused and leave the loop as it is: no push is delivered, no connection registered, and
-- nobody is online.
pub run_calls-shut_down :
    (marshal : Message → Option Bytes) (before between after : List Call)
    → let h = shut_down_hub marshal before between in
      (h.loop.connections ≡ [])
      × All
          (λ c. Knows c.address h.loop.stopped)
          (run_calls marshal before new_hub).1.loop.connections
      × All IsClosed h.loop.stopped
      × ((run_calls marshal after h).0 ≡ refusals after)
      × ((run_calls marshal after h).1.loop ≡ h.loop)
unfolding begin_shutdown start_loop new_hub
run_calls-shut_down marshal before between after =
    let running = (run_calls marshal before new_hub).1 in
    let stopping = (run_calls marshal between (begin_shutdown running)).1 in
    let over : (end_shutdown stopping).loop.done ≡ true =
      end_shutdown_done stopping
        (run_calls_closing marshal between (begin_shutdown running) refl) in
    let cleared =
      shut_down_hub_keeps IsCleared hub_step-IsCleared marshal before between
        (run_calls_keeps marshal IsCleared hub_step-IsCleared before new_hub (tt, λ off. refl)) in
    let known : (a : ℕ)
        → Knows a running.loop.connections
        → Knows a (end_shutdown stopping).loop.stopped =
      λ a k.
        was_stopped a (end_shutdown stopping).loop (cleared.1 over)
          (shut_down_hub_keeps (IsKnown a) (hub_step-IsKnown a) marshal before between (inl k)) in
    let late = run_calls_ended marshal after (end_shutdown stopping) over in
    (cleared.1 over, each_known _ _ known, cleared.0, late.0, late.1)
