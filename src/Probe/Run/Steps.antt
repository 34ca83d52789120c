-- ===== src/Probe/Run/Steps.antt =====
-- The exchanges of runProbe in cmd/devprobe/main.go, one after another.
use game_server_go.Base.{◌≡◌, refl, ap, Option, none, some, Result, ok}
use game_server_go.Base.Text.{Bytes}
use game_server_go.Messages.{Message, MsgType}
use game_server_go.Messages.Combat.{CombatResultResp}
use game_server_go.Probe.{
  WebSocket, Probe, ProbeError, new_probe_login_code, new_probe_archive, new_probe_combat_result,
}
use game_server_go.Probe.Code.{login_code}
use game_server_go.Probe.Run.{
  check_login, check_initial_load, check_save, check_final_load, check_first, check_duplicate,
  expect, play, run_probe,
}

module _ {W : Type 0} (ws : WebSocket W) (marshal : Message → Option Bytes)
    (unmarshal : MsgType → Bytes → Option Message) where
  pub play_steps :
      (code : Bytes) (first : CombatResultResp) (p p1 p2 p3 p4 p5 p6 : Probe W)
      → expect ws marshal unmarshal 1001
          (Message.login_req (record { code = code }))
          1002
          MsgType.login_resp
          check_login
          p
        ≡ (ok tt, p1)
      → expect ws marshal unmarshal 2003
          (Message.load_archive_req record {})
          2004
          MsgType.load_archive_resp
          check_initial_load
          p1
        ≡ (ok tt, p2)
      → expect ws marshal unmarshal 2001
          (Message.save_archive_req (record { archive = some new_probe_archive }))
          2002
          MsgType.save_archive_resp
          check_save
          p2
        ≡ (ok tt, p3)
      → expect ws marshal unmarshal 2003
          (Message.load_archive_req record {})
          2004
          MsgType.load_archive_resp
          check_final_load
          p3
        ≡ (ok tt, p4)
      → expect ws marshal unmarshal 4001
          (Message.combat_result_req (new_probe_combat_result code))
          4002
          MsgType.combat_result_resp
          check_first
          p4
        ≡ (ok first, p5)
      → expect ws marshal unmarshal 4001
          (Message.combat_result_req (new_probe_combat_result code))
          4002
          MsgType.combat_result_resp
          (check_duplicate first)
          p5
        ≡ (ok tt, p6)
      → play ws marshal unmarshal code p ≡ (ok tt, p6)
  unfolding play
  play_steps code first p p1 p2 p3 p4 p5 p6 e1 e2 e3 e4 e5 e6 = rw (e1, e2, e3, e4, e5, e6) refl

  -- A probe that dials and gets an identity ends as its session does.
  pub run_probe_ends :
      (identity : Bytes) (w : W) {p : Probe W} {r : Result ProbeError (Unit {0})}
      → play ws marshal unmarshal (login_code identity) (record { conn = w; seq = 0 }) ≡ (r, p)
      → (run_probe ws marshal unmarshal (λ x. (none, x)) (ok identity) w).0 ≡ r
  unfolding run_probe new_probe_login_code login_code
  run_probe_ends identity w e = ap (λ x. x.0) e
