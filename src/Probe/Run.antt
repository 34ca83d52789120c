-- ===== src/Probe/Run.antt =====
-- runProbe of cmd/devprobe/main.go.
pub mod Steps
use game_server_go.Base.{
  ℕ, ◌++◌, not, ◌||◌, ◌&&◌, Bool, true, false, List, [], Option, none, some, Result, ok, err,
  and_then, if◌then◌else◌,
}
use game_server_go.Base.Equality.{bytes_beq}
use game_server_go.Base.Int.{ℤ, pos, leb_ℤ, eqb_ℤ}
use game_server_go.Base.Text.{Bytes}
use game_server_go.Messages.{Message, MsgType}
use game_server_go.Messages.Account.{LoginResp, SaveArchiveResp, LoadArchiveResp}
use game_server_go.Messages.Combat.{CombatResultResp}
use game_server_go.Protocol.Ids.{
  id_login_req, id_login_resp, id_load_archive_req, id_load_archive_resp, id_save_archive_req,
  id_save_archive_resp, id_combat_result_req, id_combat_result_resp,
}
use game_server_go.Probe.{
  WebSocket, Probe, ProbeError, not_dialled, bad_body, login_uid, empty_token,
  initial_archive_found, save_failed, archive_not_round_tripped, first_settlement_refused,
  duplicate_differs, new_probe_login_code, new_probe_archive, new_probe_combat_result,
  equal_archives,
}
use game_server_go.Probe.Exchange.{send, read, close}

-- The tests on each response. Go's types leave no response of another type than its destination's.
unfoldable pub check_login : Message → Result ProbeError (Unit {0})
unfolding bytes_beq
check_login (Message.login_resp r) =
    if leb_ℤ r.uid (pos 0)
    then err (login_uid r.uid)
    else if bytes_beq r.token []
    then err empty_token
    else ok tt
check_login _ = err (bad_body id_login_resp)

unfoldable pub check_initial_load : Message → Result ProbeError (Unit {0})
check_initial_load (Message.load_archive_resp r) =
    if r.found then err initial_archive_found else ok tt
check_initial_load _ = err (bad_body id_load_archive_resp)

unfoldable pub check_save : Message → Result ProbeError (Unit {0})
check_save (Message.save_archive_resp r) = if not r.success then err save_failed else ok tt
check_save _ = err (bad_body id_save_archive_resp)

unfoldable pub check_final_load : Message → Result ProbeError (Unit {0})
unfolding equal_archives
check_final_load (Message.load_archive_resp r) =
    if not r.found || not (equal_archives r.archive (some new_probe_archive))
    then err archive_not_round_tripped
    else ok tt
check_final_load _ = err (bad_body id_load_archive_resp)

is_nil : {A : Type 0} → Option A → Bool
is_nil none = true
is_nil (some a) = false

unfoldable pub check_first : Message → Result ProbeError CombatResultResp
unfolding is_nil
check_first (Message.combat_result_resp r) =
    if not r.success || r.duplicate || is_nil r.archive then err first_settlement_refused else ok r
check_first _ = err (bad_body id_combat_result_resp)

unfoldable pub check_duplicate : CombatResultResp → Message → Result ProbeError (Unit {0})
unfolding equal_archives
check_duplicate first (Message.combat_result_resp r) =
    if not r.success
      || not r.duplicate
      || not (equal_archives r.archive first.archive)
      || not (eqb_ℤ r.reward_gold first.reward_gold)
      || not (eqb_ℤ r.reward_exp first.reward_exp)
      || not (eqb_ℤ r.best_score first.best_score)
    then err duplicate_differs
    else ok tt
check_duplicate first _ = err (bad_body id_combat_result_resp)

module _ {W : Type 0} (ws : WebSocket W) (marshal : Message → Option Bytes)
    (unmarshal : MsgType → Bytes → Option Message) where
  -- A request and the response to it.
  unfoldable pub ask : ℕ → Message → ℕ → MsgType → Probe W → Result ProbeError Message × Probe W
  ask req_id payload resp_id destination p =
      and_then (send ws marshal req_id payload p)
        λ seq p1. read unmarshal resp_id seq destination ws p1

  -- A request whose response passes a test.
  unfoldable pub expect :
      {A : Type 0}
      → ℕ
      → Message
      → ℕ
      → MsgType
      → (Message → Result ProbeError A)
      → Probe W
      → Result ProbeError A × Probe W
  unfolding ask
  expect req_id payload resp_id destination check p =
      and_then (ask req_id payload resp_id destination p) λ m p1. (check m, p1)

  log_in : Bytes → Probe W → Result ProbeError (Unit {0}) × Probe W
  log_in code =
      expect id_login_req (Message.login_req (record { code = code })) id_login_resp
        MsgType.login_resp check_login

  load_archive :
      (Message → Result ProbeError (Unit {0})) → Probe W → Result ProbeError (Unit {0}) × Probe W
  load_archive check =
      expect id_load_archive_req (Message.load_archive_req record {}) id_load_archive_resp
        MsgType.load_archive_resp check

  save_archive : Probe W → Result ProbeError (Unit {0}) × Probe W
  save_archive =
      expect id_save_archive_req
        (Message.save_archive_req (record { archive = some new_probe_archive }))
        id_save_archive_resp MsgType.save_archive_resp check_save

  settle :
      {A : Type 0}
      → Bytes
      → (Message → Result ProbeError A)
      → Probe W
      → Result ProbeError A × Probe W
  settle code check =
      expect id_combat_result_req (Message.combat_result_req (new_probe_combat_result code))
        id_combat_result_resp MsgType.combat_result_resp check

  -- What follows the login code in runProbe.
  unfoldable pub play : Bytes → Probe W → Result ProbeError (Unit {0}) × Probe W
  unfolding log_in load_archive save_archive settle
  play code p = and_then (log_in code p) λ a p1.
      and_then (load_archive check_initial_load p1) λ b p2. and_then (save_archive p2) λ c p3.
        and_then (load_archive check_final_load p3) λ d p4.
          and_then (settle code check_first p4) λ first p5. settle code (check_duplicate first) p5

  with_code : Result ProbeError Bytes → Probe W → Result ProbeError (Unit {0}) × Probe W
  unfolding play
  with_code (err e) p = (err e, p)
  with_code (ok code) p = play code p

  closed : Result ProbeError (Unit {0}) × Probe W → Result ProbeError (Unit {0}) × Probe W
  closed (r, p) = (r, close ws p)

  dialled : Result Bytes Bytes → Option Bytes × W → Result ProbeError (Unit {0}) × W
  unfolding with_code closed
  dialled identity (some e, w) = (err (not_dialled e), w)
  dialled identity (none, w) =
      let r = closed (with_code (new_probe_login_code identity) (record { conn = w; seq = 0 })) in
      (r.0, r.1.conn)

  -- runProbe, where `dial` is the result of dialling the address and `identity` that of rand.Read.
  -- A connection that was dialled is closed at the end, whatever happened.
  unfoldable pub run_probe :
      (W → Option Bytes × W) → Result Bytes Bytes → W → Result ProbeError (Unit {0}) × W
  unfolding dialled
  run_probe dial identity w = dialled identity (dial w)
