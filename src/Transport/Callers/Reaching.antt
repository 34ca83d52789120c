-- ===== src/Transport/Callers/Reaching.antt =====
-- A push of hub.go and what it leaves in the send buffers.
use game_server_go.Base.{
  ◌≡◌, refl, ap, ◌∙◌, Bool, true, false, List, [], ◌∷◌, ◌++◌, Option, none, Result, ok, err, ◌<◌,
  ◌⊎◌, inl, inr, arith, ℕ, length,
}
use game_server_go.Base.Int.{ℤ, eqb_ℤ_iff}
use game_server_go.Base.Text.{Bytes}
use game_server_go.Messages.{Message}
use game_server_go.Protocol.Codec.{CodecError, encode}
use game_server_go.Transport.{Connection, push_to_uid, push, enqueue, handle, step_unless, hub_step}
use game_server_go.Transport.Delivery.{Reachable, push_iff}
use game_server_go.Transport.Callers.{
  SharedHub, received, offer, was_delivered, push_wire, push_message_to_uid, start_loop,
}

-- One connection of the player, open and with room, has got the message behind its others; every other
-- connection is as it was, and so is their order.
abbrev pub Reaches : ℤ → Bytes → List Connection → List Connection → Type 0
Reaches uid wire (c ∷ cs) (d ∷ ds) =
    ((c.uid ≡ uid)
      × (c.closed ≡ false)
      × (length c.send < 256)
      × (d ≡ record c { send = c.send ++ (wire ∷ []) })
      × (ds ≡ cs))
    ⊎ ((d ≡ c) × Reaches uid wire cs ds)
Reaches _ _ _ _ = ⊥

enqueue_takes :
    (wire : Bytes) (c : Connection)
    → (enqueue wire c).0 ≡ none
    → (c.closed ≡ false)
      × (length c.send < 256)
      × ((enqueue wire c).1 ≡ record c { send = c.send ++ (wire ∷ []) })
unfolding enqueue
enqueue_takes wire c e = ground arith

-- What a push may come to: no connection was changed, or one was reached.
abbrev Pushed : ℤ → Bytes → List Connection → Bool × List Connection → Type 0
Pushed uid wire cs r = ((r.0 ≡ false) × (r.1 ≡ cs)) ⊎ ((r.0 ≡ true) × Reaches uid wire cs r.1)

onward-Pushed :
    (uid : ℤ) (wire : Bytes) (c : Connection) (cs : List Connection) (r : Bool × List Connection)
    → Pushed uid wire cs r
    → Pushed uid wire (c ∷ cs) (r.0, c ∷ r.1)
onward-Pushed uid wire c cs r (inl (missed, same)) = inl (missed, ap (λ ds. c ∷ ds) same)
onward-Pushed uid wire c cs r (inr (met, reached)) = inr (met, inr (refl, reached))

push-Pushed :
    (uid : ℤ) (wire : Bytes) (cs : List Connection) → Pushed uid wire cs (push uid wire cs)
unfolding push
push-Pushed uid wire [] = inl (refl, refl)
push-Pushed uid wire (c ∷ cs) =
    let rest = onward-Pushed uid wire c cs (push uid wire cs) (push-Pushed uid wire cs) in
    ground (arith, eqb_ℤ_iff c.uid uid, enqueue_takes wire c, rest)

-- The select of a caller while the hub runs, and what the loop then does with a push.
offer-push :
    (taken : Bool) (uid : ℤ) (wire : Bytes) (h : SharedHub)
    → h.loop.done ≡ false
    → h.closing ≡ false
    → let r = push uid wire h.loop.connections in
      let o = offer taken (push_to_uid uid wire) h in
      (was_delivered o.0 ≡ r.0) × (o.1.loop.connections ≡ r.1)
unfolding offer received was_delivered hub_step step_unless handle
offer-push taken uid wire h on unclosed = ground arith

-- What PushToUID comes to: nothing was sent and why, or the frame was sent to one connection.
abbrev pub Outcome : ℤ → Result CodecError Bytes → List Connection → Bool × SharedHub → Type 0
Outcome uid w cs r =
    ((r.0 ≡ false)
      × (r.1.loop.connections ≡ cs)
      × (((e : CodecError) × (w ≡ err e)) ⊎ (Reachable uid cs → ⊥)))
    ⊎ ((r.0 ≡ true) × (wire : Bytes) × (w ≡ ok wire) × Reaches uid wire cs r.1.loop.connections)

push_wire-Outcome :
    (taken : Bool) (uid : ℤ) (w : Result CodecError Bytes) (h : SharedHub)
    → h.loop.done ≡ false
    → h.closing ≡ false
    → Outcome uid w h.loop.connections (push_wire taken uid w h)
unfolding push_wire start_loop
push_wire-Outcome taken uid (err e) h on unclosed = inl (refl, refl, inl (e, refl))
push_wire-Outcome taken uid (ok wire) h on unclosed =
    let cs = h.loop.connections in
    let (answer, buffers) = offer-push taken uid wire (start_loop h) on unclosed in
    elim (push-Pushed uid wire cs) [
      | inl (missed, same) ↦
          let unreachable : Reachable uid cs → ⊥ =
            λ r. (let met = (push_iff uid wire cs).1 r in absurd cc) in
          inl (answer ∙ missed, buffers ∙ same, inr unreachable)
      | inr (met, reached) ↦ inr (answer ∙ met, wire, refl, rw buffers reached)
    ]

-- While the hub runs, PushToUID either answers false, and then no send buffer has changed and the
-- message does not encode or the player has no connection that is open and has room; or it answers
-- true, and then the message encodes, and its frame with sequence number zero stands at the end of the
-- buffer of one connection of the player that was open and had room, and nothing else has changed in
-- the hub's connections.
pub push_message_to_uid-Outcome :
    (marshal : Message → Option Bytes) (taken : Bool) (uid : ℤ) (msg_id : ℕ)
    (payload : Option Message) (h : SharedHub)
    → h.loop.done ≡ false
    → h.closing ≡ false
    → Outcome uid
        (encode marshal msg_id 0 payload)
        h.loop.connections
        (push_message_to_uid marshal taken uid msg_id payload h)
unfolding push_message_to_uid
push_message_to_uid-Outcome marshal taken uid msg_id payload h on unclosed =
    push_wire-Outcome taken uid (encode marshal msg_id 0 payload) h on unclosed
