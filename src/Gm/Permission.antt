-- ===== src/Gm/Permission.antt =====
-- Who may run the commands of internal/gm/handler.go, and which of them changes anything.
use game_server_go.Base.{◌≡◌, ◌≢◌, ◌↔◌, ◌⊎◌, inl, inr, refl, Bool, false, Bool-cases, err, arith}
use game_server_go.Base.Equality.{bytes_eq, bytes_beq_iff}
use game_server_go.Base.Int.{ℤ}
use game_server_go.Base.Text.{utf8}
use game_server_go.Messages.Account.{GmCommandReq}
use game_server_go.Protocol.Errors.{biz, err_unauthorized}
use game_server_go.Gm.{Backend, command, run_command}

module _ {W : Type 0} (b : Backend W) where
  run_command_quiet :
      (req : GmCommandReq) (w : W) → req.cmd ≢ utf8 "broadcast" → (run_command b req w).1 ≡ w
  unfolding run_command
  run_command_quiet req w other = ground (arith, bytes_beq_iff req.cmd (utf8 "broadcast"))

  -- A command fails exactly if the player is no game master, whatever the command.
  pub command_refused_iff :
      (is_admin : ℤ → Bool) (uid : ℤ) (req : GmCommandReq) (w : W)
      → ((command b is_admin uid req w).0
          ≡ err (biz err_unauthorized (utf8 "GM permission required")))
        ↔ (is_admin uid ≡ false)
  unfolding command
  command_refused_iff is_admin uid req w = elim (Bool-cases (is_admin uid)) [
    | inl admin ↦ rw admin (λ h. absurd cc, λ h. absurd cc)
    | inr guest ↦ rw guest (λ h. refl, λ h. refl)
  ]

  -- Nothing changes by a command of a player who is no game master, nor by any but a broadcast.
  pub command_quiet :
      (is_admin : ℤ → Bool) (uid : ℤ) (req : GmCommandReq) (w : W)
      → (is_admin uid ≡ false) ⊎ (req.cmd ≢ utf8 "broadcast")
      → (command b is_admin uid req w).1 ≡ w
  unfolding command
  command_quiet is_admin uid req w (inl guest) = rw guest refl
  command_quiet is_admin uid req w (inr other) = elim (Bool-cases (is_admin uid)) [
    | inl admin ↦ rw admin (run_command_quiet req w other)
    | inr guest ↦ rw guest refl
  ]
