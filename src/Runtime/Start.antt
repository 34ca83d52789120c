-- ===== src/Runtime/Start.antt =====
-- newRuntime of cmd/server/main.go.
pub mod Outcomes
use game_server_go.Base.{
  ℕ, Bool, true, false, List, [], ◌∷◌, Option, none, some, Result, ok, err, if◌then◌else◌,
}
use game_server_go.Base.Int.{ℤ}
use game_server_go.Base.Text.{Bytes}
use game_server_go.Kernel.{Kernel, Handler, Panic, new_kernel}
use game_server_go.Pipeline.{no_hooks}
use game_server_go.Store.Repository.{SessionRepository, StoreError}
use game_server_go.Runtime.{
  register_all, payment_route, development_routes, production_routes, development_hooks,
  production_hooks,
}

-- What openMySQLStore and openRedisStore return beside the store is its close function.
pub data RuntimeError : Type 0 where
  payment_enabled : RuntimeError
  mysql_failed redis_failed : Bytes → RuntimeError
  registration_panicked : Panic → RuntimeError

-- What newRuntime has put together: the closers are in the order of the calls that close them.
pub record Runtime (W : Type 0) : Type 0 where
  pub kernel : Kernel W
  pub closers : List (Option (W → Option Bytes × W))
  pub development : Bool

-- A store that opens has a close function, which may be nil.
abbrev pub Opened : Type 0 → Type 0
Opened W = Result Bytes (Option (W → Option Bytes × W)) × W

-- The parameters of newRuntime: the values of the configuration that it reads, and the two openers.
pub record Setting (W : Type 0) : Type 0 where
  pub payment : Bool
  pub in_development : Bool
  pub open_mysql : W → Opened W
  pub open_redis : W → Opened W

module _ {W : Type 0} where
  -- The error of a close is dropped.
  unfoldable pub close_quietly : Option (W → Option Bytes × W) → W → W
  close_quietly none w = w
  close_quietly (some close) w = (close w).1

  module _ (fn : ℕ → Handler W) (uid_of : ℕ → W → ℤ) (sessions : SessionRepository W)
      (check : Bytes → ℕ → ℕ → W → Result StoreError Bool × W) where
    finished :
        Bool
        → List (Option (W → Option Bytes × W))
        → (Kernel W → Kernel W)
        → Result Panic (Kernel W)
        → Result RuntimeError (Runtime W)
    finished development closers hooked (err p) = err (registration_panicked p)
    finished development closers hooked (ok k) =
        ok (record { kernel = hooked k; closers = closers; development = development })

    with_redis :
        Kernel W → Option (W → Option Bytes × W) → Opened W → Result RuntimeError (Runtime W) × W
    unfolding finished close_quietly production_routes production_hooks
    with_redis k close_mysql (err e, w) = (err (redis_failed e), close_quietly close_mysql w)
    with_redis k close_mysql (ok close_redis, w) = (
      finished false (close_redis ∷ close_mysql ∷ []) (production_hooks uid_of sessions check)
          (register_all (production_routes fn) k),
      w,
    )

    with_mysql : Setting W → Kernel W → Opened W → Result RuntimeError (Runtime W) × W
    unfolding with_redis
    with_mysql setting k (err e, w) = (err (mysql_failed e), w)
    with_mysql setting k (ok close_mysql, w) = with_redis k close_mysql (setting.open_redis w)

    -- After the registration of the payment handler.
    in_mode : Setting W → Bool → Result Panic (Kernel W) → W → Result RuntimeError (Runtime W) × W
    unfolding with_mysql finished development_routes development_hooks
    in_mode setting development (err p) w = (err (registration_panicked p), w)
    in_mode setting true (ok k) w = (
      finished true [] (development_hooks uid_of sessions) (register_all (development_routes fn) k),
      w,
    )
    in_mode setting false (ok k) w = with_mysql setting k (setting.open_mysql w)

    -- newRuntime; `sessions` is the store of the mode.
    unfoldable pub new_runtime : Setting W → W → Result RuntimeError (Runtime W) × W
    unfolding in_mode payment_route
    new_runtime setting w =
        let started =
          in_mode setting setting.in_development
            (register_all (payment_route fn ∷ []) (new_kernel (some no_hooks))) w in
        if setting.payment then (err payment_enabled, w) else started
