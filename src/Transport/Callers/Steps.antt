-- ===== src/Transport/Callers/Steps.antt =====
-- A call of hub.go's methods as a step of the loop, or none.
use game_server_go.Base.{
  ◌≡◌, refl, Bool, true, false, Option, Result, ok, err, ◌⊎◌, inl, inr, if◌then◌else◌,
}
use game_server_go.Base.Int.{ℤ}
use game_server_go.Base.Text.{Bytes}
use game_server_go.Messages.{Message}
use game_server_go.Protocol.Codec.{CodecError, encode}
use game_server_go.Transport.{
  Hub, Event, Answer, hub_step, register_connection, unregister_connection, count, broadcast,
  push_to_uid, close_all,
}
use game_server_go.Transport.Callers.{
  SharedHub, Call, calls_push, calls_register, calls_unregister, calls_count, calls_broadcast,
  begins_shutdown, ends_shutdown, received, offer, push_wire, broadcast_wire, push_message_to_uid,
  register, unregister, online_count, broadcast_message, start_loop, begin_shutdown, end_shutdown,
  call,
}

-- The loop is as it was, or has received one event.
abbrev pub IsStep : Hub → Hub → Type 0
IsStep h h' = (h' ≡ h) ⊎ (e : Event) × (h' ≡ (hub_step e h).1)

if_keeps {ℓ κ} :
    {A : Type ℓ} (P : A → Type κ) (b : Bool) {x y : A} → P x → P y → P (if b then x else y)
if_keeps P true px py = px
if_keeps P false px py = py

offer-IsStep : (taken : Bool) (e : Event) (h : SharedHub) → IsStep h.loop (offer taken e h).1.loop
unfolding offer received
offer-IsStep taken e h =
    let received_it : IsStep h.loop (hub_step e h.loop).1 = inr (e, refl) in
    let untouched : IsStep h.loop h.loop = inl refl in
    let on_loop : Option Answer × SharedHub → Type 0 = λ r. IsStep h.loop r.1.loop in
    if_keeps on_loop h.loop.done untouched
      (if_keeps on_loop h.closing (if_keeps on_loop taken received_it untouched) received_it)

push_wire-IsStep :
    (taken : Bool) (uid : ℤ) (w : Result CodecError Bytes) (h : SharedHub)
    → IsStep h.loop (push_wire taken uid w h).1.loop
unfolding push_wire start_loop
push_wire-IsStep taken uid (err e) h = inl refl
push_wire-IsStep taken uid (ok wire) h = offer-IsStep taken (push_to_uid uid wire) (start_loop h)

broadcast_wire-IsStep :
    (taken : Bool) (w : Result CodecError Bytes) (h : SharedHub)
    → IsStep h.loop (broadcast_wire taken w h).loop
unfolding broadcast_wire start_loop
broadcast_wire-IsStep taken (err e) h = inl refl
broadcast_wire-IsStep taken (ok wire) h = offer-IsStep taken (broadcast wire) (start_loop h)

call-IsStep :
    (marshal : Message → Option Bytes) (c : Call) (h : SharedHub)
    → IsStep h.loop (call marshal c h).1.loop
unfolding call push_message_to_uid register unregister online_count broadcast_message begin_shutdown
    end_shutdown start_loop
call-IsStep marshal (calls_push taken uid msg_id payload) h =
    push_wire-IsStep taken uid (encode marshal msg_id 0 payload) h
call-IsStep marshal (calls_register taken c) h =
    offer-IsStep taken (register_connection c) (start_loop h)
call-IsStep marshal (calls_unregister taken a) h =
    offer-IsStep taken (unregister_connection a) (start_loop h)
call-IsStep marshal (calls_count taken) h = offer-IsStep taken count (start_loop h)
call-IsStep marshal (calls_broadcast taken msg_id payload) h =
    broadcast_wire-IsStep taken (encode marshal msg_id 0 payload) h
call-IsStep marshal begins_shutdown h = inl refl
call-IsStep marshal ends_shutdown h =
    if_keeps (λ (r : SharedHub). IsStep h.loop r.loop) h.closing (inr (close_all, refl)) (inl refl)

-- What every event keeps of the loop, every call keeps.
pub call_keeps :
    (P : Hub → Type 0)
    → ((e : Event) (h : Hub) → P h → P (hub_step e h).1)
    → (marshal : Message → Option Bytes) (c : Call) (h : SharedHub) → P h.loop
    → P (call marshal c h).1.loop
call_keeps P keeps marshal c h p = elim (call-IsStep marshal c h) [
  | inl same ↦ rw same p
  | inr (e, stepped) ↦ rw stepped (keeps e h.loop p)
]
