-- ===== src/Scheduler/Loop.antt =====
-- The background goroutine of internal/scheduler/scheduler.go: what its select receives, one
-- thing after the other, as events of the program.
use cron_mon.Base.{List, [], ◌∷◌}
use cron_mon.Time.{Time}
use cron_mon.System.{Event, evaluates, cleans}

-- What run's select receives.
pub data Signal : Type 0 where
  stop cleanup_tick : Signal
  eval_tick : Time → Signal

-- The loop, until it is stopped.
unfoldable pub loop : List Signal → List Event
loop [] = []
loop (stop ∷ signals) = []
loop (eval_tick now ∷ signals) = evaluates now ∷ loop signals
loop (cleanup_tick ∷ signals) = cleans ∷ loop signals

-- run, whose goroutine starts at the time `now`.
unfoldable pub scheduler_events : Time → List Signal → List Event
unfolding loop
scheduler_events now signals = evaluates now ∷ loop signals
