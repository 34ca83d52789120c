-- ===== src/Runtime/Closing.antt =====
-- newRuntimeClose of cmd/server/main.go.
use game_server_go.Base.{Bool, true, false, List, [], ◌∷◌, Option, none, some}

-- newRuntimeClose: the error that the first call kept, if there was a call.
pub record Closing (E : Type 0) : Type 0 where
  pub once : Bool
  pub first_err : Option E

unfoldable pub runtime_close : (E : Type 0) → Closing E
runtime_close E = record { once = false; first_err = none }

unfoldable pub keep_first : {E : Type 0} → Option E → Option E → Option E
keep_first (some e) new = some e
keep_first none new = new

module _ {E W : Type 0} where
  -- The loop over the closers, of which some may be nil; an error does not end it.
  unfoldable pub close_each : List (Option (W → Option E × W)) → Option E → W → Option E × W
  unfolding keep_first
  close_each [] first w = (first, w)
  close_each (none ∷ closers) first w = close_each closers first w
  close_each (some close ∷ closers) first w =
      let r = close w in close_each closers (keep_first first r.0) r.1

  unfoldable pub close_unless :
      Bool → List (Option (W → Option E × W)) → Closing E → W → Option E × Closing E × W
  unfolding close_each
  close_unless true closers c w = (c.first_err, c, w)
  close_unless false closers c w =
      let r = close_each closers c.first_err w in
      (r.0, record { once = true; first_err = r.0 }, r.1)

  -- A call of the function that newRuntimeClose returns.
  unfoldable pub close_runtime :
      List (Option (W → Option E × W)) → Closing E → W → Option E × Closing E × W
  unfolding close_unless
  close_runtime closers c w = close_unless c.once closers c w
