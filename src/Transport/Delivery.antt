-- ===== src/Transport/Delivery.antt =====
-- The push of internal/transport/hub.go: which connections it reaches.
use game_server_go.Base.{◌≡◌, ◌<◌, ◌↔◌, ◌⊎◌, true, false, List, [], ◌∷◌, arith, length}
use game_server_go.Base.Int.{ℤ, eqb_ℤ_iff}
use game_server_go.Base.Text.{Bytes}
use game_server_go.Transport.{Connection, enqueue, push}

-- Some connection of the player is open and has room.
abbrev pub Reachable : ℤ → List Connection → Type 0
Reachable uid [] = ⊥
Reachable uid (c ∷ cs) =
    ((c.uid ≡ uid) × (c.closed ≡ false) × (length c.send < 256)) ⊎ Reachable uid cs

pub push_iff :
    (uid : ℤ) (wire : Bytes) (cs : List Connection)
    → ((push uid wire cs).0 ≡ true) ↔ Reachable uid cs
unfolding push enqueue
push_iff uid wire [] = (λ h. absurd cc, λ r. absurd r)
push_iff uid wire (c ∷ cs) =
    let (to, back) = push_iff uid wire cs in
    (λ h. ground (arith, to, eqb_ℤ_iff c.uid uid), λ r. ground (arith, back, eqb_ℤ_iff c.uid uid))
