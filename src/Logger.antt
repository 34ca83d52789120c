-- ===== src/Logger.antt =====
-- pkg/logger/logger.go: the process-wide logger, its log file, and their lifecycle. What zap makes
-- of an entry is the parameter `Zap`; a file of lumberjack is what it was given to write.
pub mod Files
pub mod Lifecycle
use game_server_go.Base.{
  ℕ, suc, ◌+◌, Bool, true, false, List, [], ◌∷◌, ◌++◌, Option, none, some, length,
  ◌==◌ as same_address, if◌then◌else◌,
}
use game_server_go.Base.Equality.{bytes_beq}
use game_server_go.Base.Int.{ℤ}
use game_server_go.Base.Text.{Bytes, utf8}

-- zapcore.Level, as far as the package names it.
pub data Level : Type 0 where
  debug info warn error fatal : Level

-- What zap does: whether a logger of a level takes an entry of another, and the two encoders.
pub record Zap : Type 0 where
  pub enabled : Level → Level → Bool
  pub console_encoder : Level → Bytes → Bytes
  pub json_encoder : Level → Bytes → Bytes

-- lumberjack.Logger, as Init fills it.
pub record Rotation : Type 0 where
  pub filename : Bytes
  pub max_size : ℤ
  pub max_backups : ℤ
  pub max_age : ℤ
  pub compress : Bool

-- guardedLogFile, with what its writer was given and how often the writer was closed.
pub record GuardedLogFile : Type 0 where
  pub writer : Rotation
  pub closed : Bool
  pub received : List Bytes
  pub writer_closes : ℕ

-- Write, whose result is that of the writer, or the length of what it drops.
unfoldable pub write_file :
    (Bytes → ℕ × Option Bytes) → Bytes → GuardedLogFile → (ℕ × Option Bytes) × GuardedLogFile
write_file writer_write entry f =
    if f.closed
    then ((length entry, none), f)
    else (writer_write entry, record f { received = f.received ++ (entry ∷ []) })

-- Sync of the file
unfoldable pub sync_file : GuardedLogFile → Option Bytes × GuardedLogFile
sync_file f = (none, f)

-- Close of the file, where `writer_close` is the result of the writer's.
unfoldable pub close_file : Option Bytes → GuardedLogFile → Option Bytes × GuardedLogFile
close_file writer_close f =
    if f.closed
    then (none, f)
    else (writer_close, record f { closed = true; writer_closes = f.writer_closes + 1 })

-- A zap logger: one that does nothing, or one of a level that writes to the console and to the
-- file at an address, if there is one.
pub data ZapLogger : Type 0 where
  nop : ZapLogger
  tee : Level → Option ℕ → ZapLogger

-- The package's variables, the files ever made (newest first; an address is how many are older),
-- zap's global logger, and whether Fatal has ended the process.
pub record Logging : Type 0 where
  pub global_logger : ZapLogger
  pub global_log_file : Option ℕ
  pub restore_global : Option ZapLogger
  pub zap_global : ZapLogger
  pub files : List GuardedLogFile
  pub console : List Bytes
  pub exited : Bool

-- The variables at the start of the process.
unfoldable pub initial : ZapLogger → Logging
initial zap_global = record {
  global_logger = nop;
  global_log_file = none;
  restore_global = none;
  zap_global = zap_global;
  files = [];
  console = [];
  exited = false;
}

-- parseLevel
unfoldable pub parse_level : Bytes → Level
unfolding bytes_beq
parse_level level =
    if bytes_beq level (utf8 "debug")
    then debug
    else if bytes_beq level (utf8 "info")
    then info
    else if bytes_beq level (utf8 "warn")
    then warn
    else if bytes_beq level (utf8 "error")
    then error
    else info

unfoldable pub change_file :
    (GuardedLogFile → GuardedLogFile) → Option ℕ → List GuardedLogFile → List GuardedLogFile
change_file f none files = files
change_file f (some a) [] = []
change_file f (some a) (x ∷ older) =
    let rest = change_file f (some a) older in
    if same_address a (length older) then f x ∷ older else x ∷ rest

-- The Close of a file, whose error Init and Close drop.
unfoldable pub release : GuardedLogFile → GuardedLogFile
unfolding close_file
release f = (close_file none f).1

make_file : Rotation → List GuardedLogFile → Option ℕ × List GuardedLogFile
unfolding bytes_beq
make_file r files = if bytes_beq r.filename [] then (none, files) else (
  some (length files),
  record { writer = r; closed = false; received = []; writer_closes = 0 } ∷ files,
)

-- zap.ReplaceGlobals returns what restores the logger that it replaces; only the first is kept.
kept : Option ZapLogger → ZapLogger → Option ZapLogger
kept none replaced = some replaced
kept (some first) replaced = some first

install : Level → Option ℕ × List GuardedLogFile → Logging → Logging
unfolding kept change_file release
install level (log_file, files) s = record s {
  global_logger = tee level log_file;
  global_log_file = log_file;
  restore_global = kept s.restore_global s.zap_global;
  zap_global = tee level log_file;
  files = change_file release s.global_log_file files;
}

-- Init
unfoldable pub init : Bytes → Bytes → ℤ → ℤ → ℤ → Logging → Logging
unfolding install make_file parse_level
init level filename max_size max_backups max_age s =
    install (parse_level level)
      (make_file
        (record {
          filename = filename;
          max_size = max_size;
          max_backups = max_backups;
          max_age = max_age;
          compress = true;
        })
        s.files)
      s

unfoldable pub restored : Option ZapLogger → ZapLogger → ZapLogger
restored none current = current
restored (some original) current = original

-- Close, by closeCurrentLocked
unfoldable pub close : Logging → Logging
unfolding restored change_file release
close s = record s {
  global_logger = nop;
  global_log_file = none;
  restore_global = none;
  zap_global = restored s.restore_global s.zap_global;
  files = change_file release s.global_log_file s.files;
}

module _ (zap : Zap) where
  -- An entry that reaches a logger of zap, also one that the package has replaced.
  unfoldable pub emit : ZapLogger → Level → Bytes → Logging → Logging
  unfolding change_file write_file
  emit nop level text s = s
  emit (tee lowest log_file) level text s =
      if zap.enabled lowest level
      then record s {
        console = s.console ++ (zap.console_encoder level text ∷ []);
        files =
            change_file
              (λ f. (write_file (λ b. (length b, none)) (zap.json_encoder level text) f).1) log_file
              s.files;
      }
      else s

  ended : Level → Logging → Logging
  ended fatal s = record s { exited = true }
  ended level s = s

  -- Debug, Debugf and their like for the other levels, once the text of the entry is made. Fatal
  -- ends the process.
  unfoldable pub log : Level → Bytes → Logging → Logging
  unfolding emit ended
  log level text s = ended level (emit s.global_logger level text s)
