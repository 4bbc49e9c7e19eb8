-- ===== src/Ticker.antt =====
-- The loops `for { select { case <-ctx.Done(): return; case <-ticker.C: pass() } }` that the warm
-- pool manager, the lifecycle controller and the reconciler run after a first pass.
use agentic_tenancy.Base.{List, [], ◌∷◌, Action, pure, ◌>>◌}

-- What the `select` of a round receives.
pub data Signal : Type 0 where
  tick done : Signal

-- The list ends where the process is stopped.
unfoldable pub on_ticks : {W : Type 0} → Action W (Unit {0}) → List Signal → Action W (Unit {0})
on_ticks pass [] = pure tt
on_ticks pass (done ∷ _) = pure tt
on_ticks pass (tick ∷ rest) = pass >> on_ticks pass rest

unfoldable pub run_loop : {W : Type 0} → Action W (Unit {0}) → List Signal → Action W (Unit {0})
unfolding on_ticks
run_loop pass signals = pass >> on_ticks pass signals
