-- ===== src/Runtime/Start/Outcomes.antt =====
-- Every way in which newRuntime of cmd/server/main.go ends.
use game_server_go.Base.{
  ℕ, ◌≡◌, refl, ap, ◌++◌, none, some, Bool, true, false, if◌then◌else◌, [], ◌∷◌, Option, Result, ok,
  err,
}
use game_server_go.Base.Int.{ℤ}
use game_server_go.Base.Text.{Bytes}
use game_server_go.Kernel.{Handler}
use game_server_go.Store.Repository.{SessionRepository, StoreError}
use game_server_go.Hooks.{auth, rate_limit}
use game_server_go.Pipeline.{Hooks, add_before}
use game_server_go.Runtime.{development_hooks, production_hooks, hook_before}
use game_server_go.Runtime.Registered.{kernels}
use game_server_go.Runtime.Start.{
  RuntimeError, payment_enabled, mysql_failed, redis_failed, Runtime, Opened, Setting,
  close_quietly, finished, with_redis, with_mysql, in_mode, new_runtime,
}

module _ {W : Type 0} (fn : ℕ → Handler W) (uid_of : ℕ → W → ℤ) (sessions : SessionRepository W)
    (check : Bytes → ℕ → ℕ → W → Result StoreError Bool × W) (setting : Setting W) where
  -- Payment is refused before anything is opened. In development nothing is opened. Else MySQL and then
  -- Redis are opened; where Redis fails, MySQL is closed again, if it has a close function. There is no panic among the ends.
  pub data IsStarted (w : W) : Result RuntimeError (Runtime W) × W → Type 0 where
    no_payment : setting.payment ≡ true → IsStarted w (err payment_enabled, w)
    develops :
        setting.payment ≡ false
        → setting.in_development ≡ true
        → IsStarted w (
          ok (record {
            kernel = record ((kernels fn).in_development) {
              hooks = record {
                before = auth uid_of (kernels fn).in_development.handlers sessions ∷ [];
                after = [];
              };
            };
            closers = [];
            development = true;
          }),
          w,
        )
    no_mysql :
        {e : Bytes} {w1 : W}
        → setting.payment ≡ false
        → setting.in_development ≡ false
        → setting.open_mysql w ≡ (err e, w1)
        → IsStarted w (err (mysql_failed e), w1)
    no_redis :
        {e : Bytes} {w1 w2 : W} (close_mysql : W → Option Bytes × W)
        → setting.payment ≡ false
        → setting.in_development ≡ false
        → setting.open_mysql w ≡ (ok (some close_mysql), w1)
        → setting.open_redis w1 ≡ (err e, w2)
        → IsStarted w (err (redis_failed e), (close_mysql w2).1)
    no_redis_nor_closer :
        {e : Bytes} {w1 w2 : W}
        → setting.payment ≡ false
        → setting.in_development ≡ false
        → setting.open_mysql w ≡ (ok none, w1)
        → setting.open_redis w1 ≡ (err e, w2)
        → IsStarted w (err (redis_failed e), w2)
    serves :
        {close_mysql close_redis : Option (W → Option Bytes × W)} {w1 w2 : W}
        → setting.payment ≡ false
        → setting.in_development ≡ false
        → setting.open_mysql w ≡ (ok close_mysql, w1)
        → setting.open_redis w1 ≡ (ok close_redis, w2)
        → IsStarted w (
          ok (record {
            kernel = record ((kernels fn).in_production) {
              hooks = record {
                before =
                    auth uid_of (kernels fn).in_production.handlers sessions
                    ∷ rate_limit uid_of (kernels fn).in_production.handlers check 100 1
                    ∷ [];
                after = [];
              };
            };
            closers = close_redis ∷ close_mysql ∷ [];
            development = false;
          }),
          w2,
        )

  development_kernel :
      development_hooks uid_of sessions (kernels fn).in_development
      ≡ record ((kernels fn).in_development) {
        hooks = record {
          before = auth uid_of (kernels fn).in_development.handlers sessions ∷ [];
          after = [];
        };
      }
  unfolding development_hooks hook_before add_before
  development_kernel =
      let k = (kernels fn).in_development in
      ap
        (λ (h : Hooks W). record k {
          hooks = record h { before = h.before ++ (auth uid_of k.handlers sessions ∷ []) };
        })
        (kernels fn).unhooked_development

  production_kernel :
      production_hooks uid_of sessions check (kernels fn).in_production
      ≡ record ((kernels fn).in_production) {
        hooks = record {
          before =
              auth uid_of (kernels fn).in_production.handlers sessions
              ∷ rate_limit uid_of (kernels fn).in_production.handlers check 100 1
              ∷ [];
          after = [];
        };
      }
  unfolding production_hooks hook_before add_before
  production_kernel =
      let k = (kernels fn).in_production in
      ap
        (λ (h : Hooks W). record k {
          hooks = record h {
            before =
                (h.before ++ (auth uid_of k.handlers sessions ∷ []))
                ++ (rate_limit uid_of k.handlers check 100 1 ∷ []);
          };
        })
        (kernels fn).unhooked_production

  with_redis-IsStarted :
      (w w1 : W) (close_mysql : Option (W → Option Bytes × W)) (opened : Opened W)
      → setting.payment ≡ false
      → setting.in_development ≡ false
      → setting.open_mysql w ≡ (ok close_mysql, w1)
      → setting.open_redis w1 ≡ opened
      → IsStarted w (with_redis fn uid_of sessions check (kernels fn).first close_mysql opened)
  unfolding with_redis finished close_quietly
  with_redis-IsStarted w w1 (some close) (err e, w2) unpaid mode mysql redis =
      no_redis close unpaid mode mysql redis
  with_redis-IsStarted w w1 none (err e, w2) unpaid mode mysql redis =
      no_redis_nor_closer unpaid mode mysql redis
  with_redis-IsStarted w w1 close_mysql (ok close_redis, w2) unpaid mode mysql redis =
      rw ((kernels fn).is_production, production_kernel) (serves unpaid mode mysql redis)

  with_mysql-IsStarted :
      (w : W) (opened : Opened W)
      → setting.payment ≡ false
      → setting.in_development ≡ false
      → setting.open_mysql w ≡ opened
      → IsStarted w (with_mysql fn uid_of sessions check setting (kernels fn).first opened)
  unfolding with_mysql
  with_mysql-IsStarted w (err e, w1) unpaid mode mysql = no_mysql unpaid mode mysql
  with_mysql-IsStarted w (ok close_mysql, w1) unpaid mode mysql =
      with_redis-IsStarted w w1 close_mysql (setting.open_redis w1) unpaid mode mysql refl

  in_mode-IsStarted :
      (w : W) (b : Bool)
      → setting.payment ≡ false
      → setting.in_development ≡ b
      → IsStarted w (in_mode fn uid_of sessions check setting b (ok (kernels fn).first) w)
  unfolding in_mode finished
  in_mode-IsStarted w true unpaid mode =
      rw ((kernels fn).is_development, development_kernel) (develops unpaid mode)
  in_mode-IsStarted w false unpaid mode =
      with_mysql-IsStarted w (setting.open_mysql w) unpaid mode refl

  either-IsStarted :
      (w : W) (b : Bool) (x y : Result RuntimeError (Runtime W) × W)
      → (b ≡ true → IsStarted w x)
      → (b ≡ false → IsStarted w y)
      → IsStarted w (if b then x else y)
  either-IsStarted w true x y h k = h refl
  either-IsStarted w false x y h k = k refl

  -- newRuntime refuses payment before it opens anything; in development it opens nothing; else it opens
  -- MySQL and then Redis, and where Redis fails it closes MySQL again, if there is a way to. It ends with
  -- the kernel that the mode's registrations make, none of which panics, and with its before hooks:
  -- authentication in development, and in production authentication and then a limit of a hundred
  -- requests in a second.
  pub new_runtime-IsStarted : (w : W) → IsStarted w (new_runtime fn uid_of sessions check setting w)
  unfolding new_runtime
  new_runtime-IsStarted w = rw (kernels fn).is_first (
      either-IsStarted w setting.payment _ _ no_payment
        (λ unpaid. in_mode-IsStarted w setting.in_development unpaid refl))
