-- ===== src/Pipeline/Chain.antt =====
-- How hooks of internal/pipeline/pipeline.go compose.
use game_server_go.Base.{◌≡◌, List, [], ◌∷◌, ◌++◌, none, some, arith}
use game_server_go.Protocol.Errors.{GoError}
use game_server_go.Pipeline.{
  Context, Payload, Before, BeforeHandler, Hooks, add_before, execute_before, run_before,
}

module _ {W : Type 0} where
  abbrev pub then_before : Before W → BeforeHandler W → Before W
  then_before r fn = elim r.error [ none ↦ fn r.ctx r.value r.state | some e ↦ r ]

  run_before-append :
      (hs : List (BeforeHandler W)) (fn : BeforeHandler W) (ctx : Context) (v : Payload) (w : W)
      → run_before (hs ++ (fn ∷ [])) ctx v w ≡ then_before (run_before hs ctx v w) fn
  unfolding run_before
  run_before-append [] fn ctx v w = ground arith
  run_before-append (h ∷ hs) fn ctx v w =
      ground (arith, run_before-append hs fn (h ctx v w).ctx (h ctx v w).value (h ctx v w).state)

  -- A before hook that is added last sees what the chain before it made of the request, and does not
  -- run at all where that chain failed: then the chain's result stands, state and error.
  pub execute_before-add_before :
      (h : Hooks W) (fn : BeforeHandler W) (ctx : Context) (v : Payload) (w : W)
      → execute_before (add_before fn h) ctx v w ≡ then_before (execute_before h ctx v w) fn
  unfolding execute_before add_before
  execute_before-add_before h fn ctx v w = run_before-append h.before fn ctx v w

  -- A chain whose first hook fails is that hook.
  pub execute_before_first :
      (h : Hooks W) (fn : BeforeHandler W) (rest : List (BeforeHandler W)) (ctx : Context)
      (v : Payload) (w : W) (e : GoError)
      → h.before ≡ fn ∷ rest
      → (fn ctx v w).error ≡ some e
      → execute_before h ctx v w ≡ fn ctx v w
  unfolding execute_before run_before
  execute_before_first h fn rest ctx v w e first x = rw first (ground arith)
