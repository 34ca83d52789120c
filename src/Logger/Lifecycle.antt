-- ===== src/Logger/Lifecycle.antt =====
-- The log files of pkg/logger over any sequence of calls.
pub mod Shut
use game_server_go.Base.{
  ℕ, suc, ◌+◌, ◌≡◌, refl, sym, ap, ◌∙◌, ◌⊎◌, inl, inr, Bool, true, false, List, [], ◌∷◌, ◌++◌,
  Option, none, some, length, All, arith, Bool-cases, ◌==◌ as same_address, if◌then◌else◌,
}
use game_server_go.Base.Equality.{bytes_beq}
use game_server_go.Base.Int.{ℤ}
use game_server_go.Base.Text.{Bytes}
use game_server_go.Logger.{
  Level, fatal, Zap, Rotation, GuardedLogFile, write_file, close_file, ZapLogger, nop, tee, Logging,
  initial, parse_level, change_file, release, make_file, kept, install, init, restored, close, emit,
  ended, log,
}
use game_server_go.Logger.Files.{
  IsReleased, IsTidy, none_open, newest_open, release_current, release_under-IsTidy, write_released,
  write-IsTidy,
}

-- A call of the package, or an entry that reaches a logger of zap which somebody has kept.
pub data Event : Type 0 where
  inits : Bytes → Bytes → ℤ → ℤ → ℤ → Event
  closes : Event
  logs : Level → Bytes → Event
  keeps_logging : ZapLogger → Level → Bytes → Event

step : Zap → Event → Logging → Logging
step zap (inits level filename size backups age) s = init level filename size backups age s
step zap closes s = close s
step zap (logs level text) s = log zap level text s
step zap (keeps_logging logger level text) s = emit zap logger level text s

step_unless : Bool → Zap → Event → Logging → Logging
unfolding step
step_unless true zap e s = s
step_unless false zap e s = step zap e s

-- The process takes no call after Fatal.
pub run_calls : Zap → List Event → Logging → Logging
unfolding step_unless
run_calls zap [] s = s
run_calls zap (e ∷ es) s = run_calls zap es (step_unless s.exited zap e s)

-- The current file is tidy, and what Close restores is the global logger that zap began with.
pub record IsSound (original : ZapLogger) (s : Logging) : Type 0 where
  pub tidy : IsTidy s.global_log_file s.files
  pub restores : restored s.restore_global s.zap_global ≡ original

made-IsTidy :
    (r : Rotation) {current : Option ℕ} (files : List GuardedLogFile)
    → IsTidy current files
    → let m = make_file r files in IsTidy m.0 (change_file release current m.1)
unfolding make_file
made-IsTidy r {current} files t = elim (Bool-cases (bytes_beq r.filename [])) [
  | inl console_only ↦ rw console_only (none_open (release_current t))
  | inr named ↦ rw named (release_under-IsTidy _ (refl, refl) t)
]

restored-kept :
    (first : Option ZapLogger) (global new : ZapLogger)
    → restored (kept first global) new ≡ restored first global
unfolding restored kept
restored-kept none global new = refl
restored-kept (some first) global new = refl

module _ {original : ZapLogger} where
  pub init-IsSound :
      (level filename : Bytes) (size backups age : ℤ) {s : Logging}
      → IsSound original s
      → IsSound original (init level filename size backups age s)
  unfolding init install
  init-IsSound level filename size backups age {s} h = record {
    tidy = made-IsTidy _ s.files h.tidy;
    restores = restored-kept s.restore_global s.zap_global _ ∙ h.restores;
  }

  close-IsSound : {s : Logging} → IsSound original s → IsSound original (close s)
  unfolding close restored
  close-IsSound {s} h = record { tidy = none_open (release_current h.tidy); restores = h.restores }

  module _ (zap : Zap) where
    pub emit-IsSound :
        (logger : ZapLogger) (level : Level) (text : Bytes) {s : Logging}
        → IsSound original s
        → IsSound original (emit zap logger level text s)
    unfolding emit
    emit-IsSound nop level text h = h
    emit-IsSound (tee lowest at) level text {s} h = elim (Bool-cases (zap.enabled lowest level)) [
      | inl taken ↦ rw taken (record {
        tidy = write-IsTidy (λ b. (length b, none)) (zap.json_encoder level text) at h.tidy;
        restores = h.restores;
      })
      | inr dropped ↦ rw dropped h
    ]

    ended-IsSound :
        (level : Level) {s : Logging} → IsSound original s → IsSound original (ended zap level s)
    unfolding ended
    ended-IsSound fatal h = record { tidy = h.tidy; restores = h.restores }
    ended-IsSound level h = h

    step-IsSound : (e : Event) {s : Logging} → IsSound original s → IsSound original (step zap e s)
    unfolding step log
    step-IsSound (inits level filename size backups age) h =
        init-IsSound level filename size backups age h
    step-IsSound closes h = close-IsSound h
    step-IsSound (logs level text) {s} h =
        ended-IsSound level (emit-IsSound s.global_logger level text h)
    step-IsSound (keeps_logging logger level text) h = emit-IsSound logger level text h

    step_unless-IsSound :
        (over : Bool) (e : Event) {s : Logging}
        → IsSound original s
        → IsSound original (step_unless over zap e s)
    unfolding step_unless
    step_unless-IsSound true e h = h
    step_unless-IsSound false e h = step-IsSound e h

    run-IsSound :
        (es : List Event) {s : Logging} → IsSound original s → IsSound original (run_calls zap es s)
    unfolding run_calls
    run-IsSound [] h = h
    run-IsSound (e ∷ es) {s} h = run-IsSound es (step_unless-IsSound s.exited e h)

pub initial-IsSound : (original : ZapLogger) → IsSound original (initial original)
unfolding initial restored
initial-IsSound original = record { tidy = none_open tt; restores = refl }

pub close-IsReleased :
    {original : ZapLogger} {s : Logging}
    → IsSound original s
    → All IsReleased (close s).files × ((close s).zap_global ≡ original)
unfolding close
close-IsReleased h = (release_current h.tidy, h.restores)

-- After Close, whatever calls went before: every log file that was ever made is closed, and its
-- writer has been closed once; zap has the global logger that it began with, the package the one
-- that does nothing; and a second Close changes nothing.
pub close_run :
    (zap : Zap) (original : ZapLogger) (es : List Event)
    → let s = close (run_calls zap es (initial original)) in
      All IsReleased s.files × (s.zap_global ≡ original) × (s.global_logger ≡ nop) × (close s ≡ s)
unfolding close restored change_file
close_run zap original es =
    let h = run-IsSound zap es (initial-IsSound original) in
    let released = close-IsReleased h in (released.0, released.1, refl, refl)
