-- ===== src/Runtime/Main/Ends.antt =====
-- Every way in which main of cmd/server/main.go ends.
use game_server_go.Base.{
  ℕ, ◌≡◌, ◌≤◌, ◌<◌, inl, inr, refl, Bool, Option, none, some, Result, ok, err, All,
}
use game_server_go.Base.Int.{ℤ}
use game_server_go.Base.Text.{Bytes, utf8}
use game_server_go.Config.{Settings, LoadError}
use game_server_go.Kernel.{Handler}
use game_server_go.Logger.{Zap, ZapLogger, Level, Logging, info, error, initial}
use game_server_go.Logger.Files.{IsReleased}
use game_server_go.Logger.Lifecycle.{
  IsSound, initial-IsSound, init-IsSound, emit-IsSound, close-IsReleased,
}
use game_server_go.Store.Repository.{SessionRepository, StoreError}
use game_server_go.Transport.Server.{Server, new_server, not_entered}
use game_server_go.Transport.Server.Shutdown.{Reaches}
use game_server_go.Transport.Server.Returning.{shut_down-Returns, IsShutDown}
use game_server_go.Runtime.Closing.{close_runtime, runtime_close}
use game_server_go.Runtime.Start.{RuntimeError, Runtime, new_runtime}
use game_server_go.Runtime.Main.{
  Heard, signalled, serving_failed, Served, Ended, says, says_failed, setting_of, release_all,
  after_shutdown, leave_serving, with_runtime, main,
}
use game_server_go.Runtime.Main.Pools.{Drivers, Accounts, new_runtime-Accounts}

-- What serving is relied on for: it opens and closes no pool; its server is one that the steps of
-- the server reach; and nobody has shut that down before a signal arrives.
pub record ServingLaws {W : Type 0} (d : Drivers W) (serve : Runtime W → W → Served W)
    : Type 0 where
  pub keeps : (rt : Runtime W) (w : W) → d.pools (serve rt w).world ≡ d.pools w
  pub reached : (rt : Runtime W) (w : W) → Reaches new_server (serve rt w).server
  pub not_yet :
      (rt : Runtime W) (w : W) (name : Bytes)
      → (serve rt w).heard ≡ signalled name
      → (serve rt w).server.phase ≡ not_entered

says-IsSound :
    {original : ZapLogger} (zap : Zap) (level : Level) (text : Bytes) {s : Logging}
    → IsSound original s
    → IsSound original (says zap level text s)
unfolding says
says-IsSound zap level text {s} h = emit-IsSound zap s.zap_global level text h

says_failed-IsSound :
    {original : ZapLogger} (zap : Zap) (text : Bytes) (e : Option Bytes) {s : Logging}
    → IsSound original s
    → IsSound original (says_failed zap text e s)
unfolding says_failed
says_failed-IsSound zap text none h = h
says_failed-IsSound zap text (some e) h = says-IsSound zap error text h

module _ {W : Type 0} (zap : Zap) (d : Drivers W) (serve : Runtime W → W → Served W)
    (laws : ServingLaws d serve) (original : ZapLogger) (loaded : Result LoadError Settings)
    (started : Settings → Result RuntimeError (Runtime W) × W) (w : W) where
  -- As many pools are open as before the start, every log file is closed, once, and zap has the
  -- global logger that it began with.
  abbrev pub IsReleasing : Ended W → Type 0
  IsReleasing end =
      (d.pools end.world ≡ d.pools w)
      × All IsReleased end.logs.files
      × (end.logs.zap_global ≡ original)

  -- The configuration does not load; the runtime does not start; a signal stops the server; or the
  -- server fails, and then the process ends at once, with what is open.
  pub data IsEnded : Option (Ended W) → Type 0 where
    not_loaded :
        {e : LoadError}
        → loaded ≡ err e
        → IsEnded (some (record { code = 1; logs = initial original; server = none; world = w }))
    not_started :
        {end : Ended W} {cfg : Settings} {e : RuntimeError} {w1 : W}
        → loaded ≡ ok cfg
        → started cfg ≡ (err e, w1)
        → end.code ≡ 1
        → end.server ≡ none
        → IsReleasing end
        → IsEnded (some end)
    stopped :
        {end : Ended W} {server : Server} {cfg : Settings} {rt : Runtime W} {w1 : W} {name : Bytes}
        → loaded ≡ ok cfg
        → started cfg ≡ (ok rt, w1)
        → (serve rt w1).heard ≡ signalled name
        → end.code ≡ 0
        → end.server ≡ some server
        → (serve rt w1).server.connections ≤ (serve rt w1).ending
        → IsShutDown (serve rt w1).server.http_srv server
        → IsReleasing end
        → IsEnded (some end)
    waits :
        {cfg : Settings} {rt : Runtime W} {w1 : W} {name : Bytes}
        → loaded ≡ ok cfg
        → started cfg ≡ (ok rt, w1)
        → (serve rt w1).heard ≡ signalled name
        → (serve rt w1).ending < (serve rt w1).server.connections
        → IsEnded none
    failed :
        {end : Ended W} {cfg : Settings} {rt : Runtime W} {w1 : W} {e : Bytes}
        → loaded ≡ ok cfg
        → started cfg ≡ (ok rt, w1)
        → (serve rt w1).heard ≡ serving_failed e
        → end.code ≡ 1
        → d.pools end.world ≡ d.pools w1
        → IsEnded (some end)

  release_all-IsReleasing :
      (rt : Runtime W) (w2 : W) (logs : Logging) (server : Server)
      → IsSound original logs
      → d.pools (close_runtime rt.closers (runtime_close Bytes) w2).2 ≡ d.pools w
      → IsReleasing (release_all zap rt w2 logs server)
  unfolding release_all
  release_all-IsReleasing rt w2 logs server h k =
      let told =
        says_failed-IsSound zap (utf8 "close runtime resources")
          (close_runtime rt.closers (runtime_close Bytes) w2).0 h in
      let (files, global) =
        close-IsReleased (says-IsSound zap info (utf8 "game server stopped") told) in
      (k, files, global)

  leave_serving-IsEnded :
      (cfg : Settings) (rt : Runtime W) (w1 : W) (heard : Heard) (logs : Logging)
      → loaded ≡ ok cfg
      → started cfg ≡ (ok rt, w1)
      → (serve rt w1).heard ≡ heard
      → IsSound original logs
      → Accounts d w (ok rt, w1)
      → IsEnded (leave_serving zap rt heard (serve rt w1) logs)
  unfolding leave_serving release_all after_shutdown
  leave_serving-IsEnded cfg rt w1 (signalled name) logs conf boot at h accounts =
      let told = says zap info (utf8 "shutdown signal received") logs in
      let sound = says-IsSound zap info (utf8 "shutdown signal received") h in
      elim (shut_down-Returns (laws.reached rt w1) (laws.not_yet rt w1 name at)
        (serve rt w1).ending) [
          | inl (enough, t, ends, down) ↦ rw ends (
              stopped conf boot at refl refl enough down (
                release_all-IsReleasing rt (serve rt w1).world told t sound
                  (accounts (serve rt w1).world (laws.keeps rt w1))))
          | inr (some_left, stuck) ↦ rw stuck (waits conf boot at some_left)
        ]
  leave_serving-IsEnded cfg rt w1 (serving_failed e) logs conf boot at h accounts =
      failed conf boot at refl (laws.keeps rt w1)

  with_runtime-IsEnded :
      (cfg : Settings) (logs : Logging) (r : Result RuntimeError (Runtime W) × W)
      → loaded ≡ ok cfg
      → started cfg ≡ r
      → IsSound original logs
      → Accounts d w r
      → IsEnded (with_runtime zap serve logs r)
  unfolding with_runtime
  with_runtime-IsEnded cfg logs (err e, w1) conf boot h same =
      let (files, global) =
        close-IsReleased (says-IsSound zap error (utf8 "initialize server runtime") h) in
      not_started conf boot refl refl (same, files, global)
  with_runtime-IsEnded cfg logs (ok rt, w1) conf boot h accounts =
      leave_serving-IsEnded cfg rt w1 (serve rt w1).heard
        (says zap info (utf8 "game server started") logs) conf boot refl
        (says-IsSound zap info (utf8 "game server started") h) accounts

-- Where the configuration does not load, main exits with code 1 and has touched nothing. Where newRuntime
-- fails the code is 1; where a signal stops the server it is 0, and the server, its hub and its HTTP
-- server are shut down: in both cases no pool of connections is left open, every log file has been
-- closed, once, and zap has its first global logger again. After a signal main ends exactly if all the
-- connections end that are counted, and waits for ever otherwise. Where the listener fails the process
-- ends with code 1, and the pools that newRuntime has opened are still open. This holds if the drivers
-- count pools as they should and serving opens none, and if Shutdown is not called before the signal.
pub main-IsEnded :
    {W : Type 0} (zap : Zap) (d : Drivers W) (serve : Runtime W → W → Served W)
    (laws : ServingLaws d serve) (original : ZapLogger) (loaded : Result LoadError Settings)
    (fn : ℕ → Handler W) (uid_of : ℕ → W → ℤ) (sessions : SessionRepository W)
    (check : Bytes → ℕ → ℕ → W → Result StoreError Bool × W) (w : W)
    → IsEnded zap d serve laws original loaded
        (λ cfg. new_runtime fn uid_of sessions check (setting_of d.mysql d.redis cfg) w)
        w
        (main zap serve fn uid_of sessions check d.mysql d.redis loaded (initial original) w)
unfolding main
main-IsEnded zap d serve laws original (err e) fn uid_of sessions check w = not_loaded refl
main-IsEnded zap d serve laws original (ok cfg) fn uid_of sessions check w =
    let log = cfg.log in
    with_runtime-IsEnded zap d serve laws original (ok cfg) _ w cfg _ _ refl refl
      (init-IsSound log.level log.filename log.max_size log.max_backups log.max_age
        (initial-IsSound original))
      (new_runtime-Accounts d fn uid_of sessions check cfg w)
