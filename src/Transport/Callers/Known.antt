-- ===== src/Transport/Callers/Known.antt =====
-- The hub of hub.go never loses a connection: what it knew it knows, or has stopped.
use game_server_go.Base.{
  ◌≡◌, refl, ◌∙◌, Bool, true, false, List, [], ◌∷◌, ◌++◌, Option, none, some, All, ℕ, ◌⊎◌, inl, inr,
  arith,
}
use game_server_go.Base.Int.{ℤ}
use game_server_go.Base.Text.{Bytes}
use game_server_go.Transport.{
  Connection, Hub, Event, register_connection, unregister_connection, broadcast, push_to_uid, count,
  close_all, message_written, stopped_itself, enqueue, stop, take_message, find_connection, without,
  add_connection, change, send_all, push, stop_all, leave, handle, step_unless, hub_step,
}

-- Some connection has the address.
abbrev pub Knows : ℕ → List Connection → Type 0
Knows a [] = ⊥
Knows a (c ∷ cs) = (c.address ≡ a) ⊎ Knows a cs

abbrev pub IsKnown : ℕ → Hub → Type 0
IsKnown a h = Knows a h.connections ⊎ Knows a h.stopped

without-Knows : (a b : ℕ) (cs : List Connection) → Knows a cs → (b ≡ a) ⊎ Knows a (without b cs)
unfolding without
without-Knows a b [] k = inr k
without-Knows a b (c ∷ cs) k = ground (arith, without-Knows a b cs)

change-Knows :
    (f : Connection → Connection) (a b : ℕ) (cs : List Connection)
    → ((c : Connection) → (f c).address ≡ c.address)
    → Knows a cs
    → Knows a (change f b cs)
unfolding change
change-Knows f a b [] keeps k = k
change-Knows f a b (c ∷ cs) keeps k = ground (arith, change-Knows f a b cs keeps, keeps c)

enqueue_address : (wire : Bytes) (c : Connection) → (enqueue wire c).1.address ≡ c.address
unfolding enqueue
enqueue_address wire c = ground arith

take_message_address : (c : Connection) → (take_message c).address ≡ c.address
unfolding take_message
take_message_address c = ground arith

stop_address : (c : Connection) → (stop c).address ≡ c.address
unfolding stop
stop_address c = refl

send_all-Knows :
    (a : ℕ) (wire : Bytes) (cs : List Connection) → Knows a cs → Knows a (send_all wire cs)
unfolding send_all
send_all-Knows a wire [] k = k
send_all-Knows a wire (c ∷ cs) (inl e) = inl (enqueue_address wire c ∙ e)
send_all-Knows a wire (c ∷ cs) (inr k) = inr (send_all-Knows a wire cs k)

push-Knows :
    (a : ℕ) (uid : ℤ) (wire : Bytes) (cs : List Connection)
    → Knows a cs
    → Knows a (push uid wire cs).1
unfolding push
push-Knows a uid wire [] k = k
push-Knows a uid wire (c ∷ cs) k = ground (arith, push-Knows a uid wire cs, enqueue_address wire c)

stop_all-Knows :
    (a : ℕ) (cs stopped : List Connection)
    → Knows a cs ⊎ Knows a stopped
    → Knows a (stop_all cs ++ stopped)
unfolding stop_all stop
stop_all-Knows a [] stopped (inr k) = k
stop_all-Knows a [] stopped (inl k) = absurd k
stop_all-Knows a (c ∷ cs) stopped (inl (inl e)) = inl e
stop_all-Knows a (c ∷ cs) stopped (inl (inr k)) = inr (stop_all-Knows a cs stopped (inl k))
stop_all-Knows a (c ∷ cs) stopped (inr k) = inr (stop_all-Knows a cs stopped (inr k))

leave-IsKnown :
    (found : Option Connection) (a : ℕ) (h : Hub) → IsKnown a h → IsKnown a (leave found h)
unfolding leave stop
leave-IsKnown none a h k = k
leave-IsKnown (some c) a h k = ground (arith, without-Knows a c.address h.connections)

handle-IsKnown : (a : ℕ) (e : Event) (h : Hub) → IsKnown a h → IsKnown a (handle e h).1
unfolding handle add_connection
handle-IsKnown a (register_connection c) h k =
    ground (arith, without-Knows a c.address h.connections)
handle-IsKnown a (unregister_connection b) h k =
    leave-IsKnown (find_connection b h.connections) a h k
handle-IsKnown a (broadcast wire) h k = ground (arith, send_all-Knows a wire h.connections)
handle-IsKnown a (push_to_uid uid wire) h k = ground (arith, push-Knows a uid wire h.connections)
handle-IsKnown a count h k = k
handle-IsKnown a close_all h k = inr (stop_all-Knows a h.connections h.stopped k)
handle-IsKnown a (message_written b) h k =
    ground (arith, change-Knows take_message a b h.connections take_message_address)
handle-IsKnown a (stopped_itself b) h k =
    ground (arith, change-Knows stop a b h.connections stop_address)

step_unless-IsKnown :
    (over : Bool) (a : ℕ) (e : Event) (h : Hub) → IsKnown a h → IsKnown a (step_unless over e h).1
unfolding step_unless
step_unless-IsKnown true a e h k = k
step_unless-IsKnown false a e h k = handle-IsKnown a e h k

pub hub_step-IsKnown : (a : ℕ) (e : Event) (h : Hub) → IsKnown a h → IsKnown a (hub_step e h).1
unfolding hub_step
hub_step-IsKnown a e h k = step_unless-IsKnown h.done a e h k

-- Every connection of a list is among those of another.
pub each_known :
    (cs ds : List Connection)
    → ((a : ℕ) → Knows a cs → Knows a ds)
    → All (λ c. Knows c.address ds) cs
each_known [] ds k = tt
each_known (c ∷ cs) ds k = (k c.address (inl refl), each_known cs ds (λ a r. k a (inr r)))
