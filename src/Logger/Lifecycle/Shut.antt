-- ===== src/Logger/Lifecycle/Shut.antt =====
-- The log files of pkg/logger after Close.
use game_server_go.Base.{
  ◌≡◌, refl, ◌∙◌, inl, inr, Bool, true, false, List, [], ◌∷◌, none, length, All, Bool-cases,
}
use game_server_go.Base.Text.{Bytes}
use game_server_go.Logger.{
  Level, fatal, Zap, GuardedLogFile, ZapLogger, nop, tee, Logging, initial, close, emit, ended, log,
}
use game_server_go.Logger.Files.{IsReleased, write_released}
use game_server_go.Logger.Files.{release-none}
use game_server_go.Logger.Lifecycle.{
  Event, inits, closes, logs, keeps_logging, step_unless, step, run_calls, close_run,
}

-- A call that makes no file.
abbrev pub IsQuiet : Event → Type 0
IsQuiet (inits level filename size backups age) = ⊥
IsQuiet _ = Unit {0}

-- Every file is released, and none is current.
record IsShut (files : List GuardedLogFile) (s : Logging) : Type 0 where
  pub released : All IsReleased s.files
  pub none_current : s.global_log_file ≡ none
  pub unchanged : s.files ≡ files

module _ (zap : Zap) {files : List GuardedLogFile} where
  emit-IsShut :
      (logger : ZapLogger) (level : Level) (text : Bytes) {s : Logging}
      → IsShut files s
      → IsShut files (emit zap logger level text s)
  unfolding emit
  emit-IsShut nop level text h = h
  emit-IsShut (tee lowest at) level text {s} h = elim (Bool-cases (zap.enabled lowest level)) [
    | inl taken ↦ rw taken (
        let same =
          write_released (λ b. (length b, none)) (zap.json_encoder level text) at s.files
            h.released in
        record {
          released = rw same h.released;
          none_current = h.none_current;
          unchanged = same ∙ h.unchanged;
        })
    | inr dropped ↦ rw dropped h
  ]

  ended-IsShut : (level : Level) {s : Logging} → IsShut files s → IsShut files (ended zap level s)
  unfolding ended
  ended-IsShut fatal h = record {
    released = h.released;
    none_current = h.none_current;
    unchanged = h.unchanged;
  }
  ended-IsShut level h = h

  close-IsShut : {s : Logging} → IsShut files s → IsShut files (close s)
  unfolding close
  close-IsShut {s} h =
      let same = release-none s.files h.none_current in
      record { released = rw same h.released; none_current = refl; unchanged = same ∙ h.unchanged }

  step-IsShut :
      (over : Bool) (e : Event) {s : Logging}
      → IsQuiet e
      → IsShut files s
      → IsShut files (step_unless over zap e s)
  unfolding step_unless step log
  step-IsShut true e q h = h
  step-IsShut false (inits level filename size backups age) q h = elim q [ ]
  step-IsShut false closes q h = close-IsShut h
  step-IsShut false (logs level text) {s} q h =
      ended-IsShut level (emit-IsShut s.global_logger level text h)
  step-IsShut false (keeps_logging logger level text) q h = emit-IsShut logger level text h

  run-IsShut :
      (es : List Event) {s : Logging}
      → All IsQuiet es
      → IsShut files s
      → IsShut files (run_calls zap es s)
  unfolding run_calls
  run-IsShut [] q h = h
  run-IsShut (e ∷ es) {s} q h = run-IsShut es q.1 (step-IsShut s.exited e q.0 h)

-- After Close no log file changes until the next Init: neither later calls of the package nor
-- loggers of zap that somebody has kept write to a closed file, and no writer is closed again.
pub close_quiet :
    (zap : Zap) (original : ZapLogger) (es later : List Event)
    → All IsQuiet later
    → (run_calls zap later (close (run_calls zap es (initial original)))).files
      ≡ (close (run_calls zap es (initial original))).files
unfolding close
close_quiet zap original es later q =
    (run-IsShut zap later q (record {
      released = (close_run zap original es).0;
      none_current = refl;
      unchanged = refl;
    })).unchanged
