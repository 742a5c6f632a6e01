-- ===== src/Main/Program.antt =====
-- main and run of main.go: from the configuration and the database to the end of the program.
pub mod Lives
pub mod Overflow
use cron_mon.Base.{
  ℕ, suc, Bool, true, false, Option, none, some, List, [], ◌∷◌, ◌++◌, Result, ok, err, Error,
  String, if◌then◌else◌,
}
use cron_mon.Base.Int.{ℤ, pos, ltb_ℤ}
use cron_mon.Base.Text.{Text}
use cron_mon.Time.{Time, seconds}
use cron_mon.Config.{Config, Invalid, load, validate}
use cron_mon.Migrations.{Driver, Database, OpenError, open_database}
use cron_mon.Cache.{StateCache, empty_cache, hydrate}
use cron_mon.Alerts.{make_alert_channel}
use cron_mon.World.{World}
use cron_mon.System.{Services, Event, run}
use cron_mon.System.Draining.{work_off}
use cron_mon.Scheduler.Loop.{Signal, scheduler_events}

-- What the environment chooses in one life of the process.
pub record Life : Type 0 where
  -- Whether sql.Open succeeds.
  pub opens : Bool
  -- When the scheduler's goroutine starts, and what its select receives.
  pub started : Time
  pub signals : List Signal
  -- The requests to the server, and the worker's deliveries.
  pub others : List Event
  -- The order in which the goroutines take turns: `true` for the scheduler's.
  pub turns : List Bool
  -- The server's error, if it does not end by a signal.
  pub serve_error : Option Text
  -- The times of the worker's last deliveries.
  pub clock : ℕ → Time

-- How the program ends: before it serves, by a panic, or by run's return with the last state.
pub data Ending (Db : Type 0) : Type 0 where
  invalid : Invalid → Ending Db
  not_opened : OpenError → Ending Db
  not_hydrated : Error → Ending Db
  panics : Ending Db
  waits_forever : Ending Db
  returns : Option Text → World Db → Ending Db

-- The events of two goroutines, in the order of the turns.
unfoldable pub merge {ℓ} : {A : Type ℓ} → List Bool → List A → List A → List A
merge [] xs ys = xs ++ ys
merge (turn ∷ turns) [] ys = ys
merge (turn ∷ turns) (x ∷ xs) [] = x ∷ xs
merge (true ∷ turns) (x ∷ xs) (y ∷ ys) = x ∷ merge turns xs (y ∷ ys)
merge (false ∷ turns) (x ∷ xs) (y ∷ ys) = y ∷ merge turns (x ∷ xs) ys

module _ {Db : Type 0} (s : Services Db) (driver : Driver Db) (life : Life) where
  -- The events until the shutdown.
  abbrev pub events : List Event
  events = merge life.turns (scheduler_events life.started life.signals) life.others

  -- close(alertCh) and worker.Wait(), once the server and the scheduler have stopped.
  unfoldable pub shut_down : World Db → Ending Db
  unfolding work_off
  shut_down w = elim (work_off s life.clock (suc w.alerts.capacity) w) [
    | none ↦ waits_forever
    | some w' ↦ returns life.serve_error w'
  ]

  -- scheduler.New, which panics on an interval that is not positive, and all that follows.
  unfoldable pub start_scheduler : Config → World Db → Ending Db
  unfolding seconds run shut_down
  start_scheduler cfg w =
      if ltb_ℤ (pos 0) (seconds cfg.scheduler_interval) then shut_down (run s events w) else panics

  unfoldable pub start_hydrated : Config → Result (Unit {0}) × StateCache Db → Ending Db
  unfolding start_scheduler
  start_hydrated cfg (err e, cache) = not_hydrated e
  start_hydrated cfg (ok done, cache) =
      start_scheduler cfg (record { cache = cache; alerts = make_alert_channel })

  unfoldable pub start_opened : Config → Option OpenError × Database Db → Ending Db
  unfolding start_hydrated hydrate empty_cache
  start_opened cfg (some e, database) = not_opened e
  start_opened cfg (none, database) =
      start_hydrated cfg (hydrate s.checks (empty_cache s.checks database.schema))

  -- run
  unfoldable pub run_program : Config → Database Db → Ending Db
  unfolding start_opened open_database
  run_program cfg database = start_opened cfg (open_database driver life.opens database)

  -- main, with what Validate says of the configuration that Load reads.
  unfoldable pub start_valid : Config → Option Invalid → Database Db → Ending Db
  unfolding run_program
  start_valid cfg (some e) database = invalid e
  start_valid cfg none database = run_program cfg database

  unfoldable pub main :
      (String → Option Text) → (Text → Option (Text × Text)) → Database Db → Ending Db
  unfolding start_valid load validate
  main lookup_env parse_request_uri database =
      start_valid (load lookup_env) (validate parse_request_uri (load lookup_env)) database
