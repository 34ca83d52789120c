-- ===== src/Examples/Calling.antt =====
-- The methods of the hub at concrete inputs.
use game_server_go.Base.{◌≡◌, refl, List, [], ◌∷◌, true, false, Option, some, All}
use game_server_go.Base.Int.{pos, eqb_ℤ, leb_ℤ}
use game_server_go.Base.Text.{Bytes}
use game_server_go.Messages.{Message}
use game_server_go.Protocol.Codec.{encode}
use game_server_go.Transport.{Connection, hub_step}
use game_server_go.Transport.Callers.{
  SharedHub, Call, calls_push, calls_register, calls_unregister, calls_count, calls_broadcast,
  begins_shutdown, new_hub, register, online_count, push_message_to_uid,
}
use game_server_go.Transport.Callers.Ended.{run_calls, refusals, shut_down_hub, run_calls-shut_down}
use game_server_go.Transport.Callers.Cleared.{IsClosed}
use game_server_go.Transport.Callers.Known.{Knows}
use game_server_go.Transport.Callers.Reaching.{Outcome, push_message_to_uid-Outcome}
use game_server_go.Examples.Server.{request}

abbrev two_bytes : Message → Option Bytes
two_bytes m = some (8 ∷ 5 ∷ [])

abbrev phone : Connection
phone = record { address = 1; uid = pos 4; send = []; closed = false }

abbrev tablet : Connection
tablet = record { address = 2; uid = pos 4; send = []; closed = false }

abbrev both_online : SharedHub
both_online = (register true tablet (register true phone new_hub).1).1

counts_both : (online_count true both_online).0 ≡ 2
unfolding online_count register new_hub hub_step
counts_both = refl

-- The message goes to one of the player's two connections.
reaches_tablet :
    (push_message_to_uid two_bytes true (pos 4) 1003 (some request) both_online).0 ≡ true
unfolding push_message_to_uid register encode new_hub hub_step eqb_ℤ leb_ℤ
reaches_tablet = refl

push_message_to_uid-Outcome_example :
    Outcome
      (pos 4)
      (encode two_bytes 1003 0 (some request))
      both_online.loop.connections
      (push_message_to_uid two_bytes true (pos 4) 1003 (some request) both_online)
unfolding register new_hub hub_step
push_message_to_uid-Outcome_example =
    push_message_to_uid-Outcome two_bytes true (pos 4) 1003 (some request) both_online refl refl

abbrev earlier : List Call
earlier = calls_register true phone ∷ calls_register true tablet ∷ calls_unregister true 1 ∷ []

-- A push that the loop still takes, and a registration that it does not.
abbrev meanwhile : List Call
meanwhile =
    calls_push true (pos 4) 1003 (some request) ∷ calls_register false phone ∷ begins_shutdown ∷ []

abbrev later : List Call
later = calls_register true phone ∷ calls_count true ∷ calls_broadcast true 1003 (some request) ∷ []

run_calls-shut_down_example :
    ((shut_down_hub two_bytes earlier meanwhile).loop.connections ≡ [])
    × All
        (λ c. Knows c.address (shut_down_hub two_bytes earlier meanwhile).loop.stopped)
        (run_calls two_bytes earlier new_hub).1.loop.connections
    × All IsClosed (shut_down_hub two_bytes earlier meanwhile).loop.stopped
    × ((run_calls two_bytes later (shut_down_hub two_bytes earlier meanwhile)).0 ≡ refusals later)
    × ((run_calls two_bytes later (shut_down_hub two_bytes earlier meanwhile)).1.loop
        ≡ (shut_down_hub two_bytes earlier meanwhile).loop)
run_calls-shut_down_example = run_calls-shut_down two_bytes earlier meanwhile later
