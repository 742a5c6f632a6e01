-- ===== src/Main/Program/Overflow.antt =====
-- The interval that run of main.go gives to scheduler.New of internal/scheduler/scheduler.go.
use cron_mon.Base.{ℕ, ◌≡◌, ◌<◌, refl, false, Option, none, Result, ok, err, String}
use cron_mon.Base.Int.{pos, ltb_ℤ}
use cron_mon.Base.Text.{Text}
use cron_mon.Config.{Config, load, validate}
use cron_mon.Time.{seconds}
use cron_mon.Migrations.{Driver, Database, open_database}
use cron_mon.Cache.{StateCache, empty_cache, hydrate}
use cron_mon.System.{Services}
use cron_mon.Main.Program.{
  Life, panics, main, start_valid, run_program, start_opened, start_hydrated, start_scheduler,
}
use cron_mon.Main.Program.Lives.{seconds-wraps}

module _ {Db : Type 0} (s : Services Db) (driver : Driver Db) (life : Life) where
  start_hydrated-panics :
      (cfg : Config) (r : Result (Unit {0}) × StateCache Db)
      → r.0 ≡ ok tt
      → ltb_ℤ (pos 0) (seconds cfg.scheduler_interval) ≡ false
      → start_hydrated s driver life cfg r ≡ panics
  unfolding start_hydrated start_scheduler
  start_hydrated-panics cfg (err e, cache) done = cc
  start_hydrated-panics cfg (ok u, cache) done = λ negative. rw negative refl

  -- A valid configuration whose SCHEDULER_INTERVAL is over 9,223,372,036 and below 18,446,744,074
  -- makes the program panic once it has opened the database and read the checks: the interval as
  -- a duration is negative.
  pub main-panics :
      (lookup_env : String → Option Text) (parse_request_uri : Text → Option (Text × Text))
      (database database' : Database Db) (n : ℕ)
      → validate parse_request_uri (load lookup_env) ≡ none
      → (load lookup_env).scheduler_interval ≡ pos n
      → 9_223_372_036 < n
      → n < 18_446_744_074
      → open_database driver life.opens database ≡ (none, database')
      → (hydrate s.checks (empty_cache s.checks database'.schema)).0 ≡ ok tt
      → main s driver life lookup_env parse_request_uri database ≡ panics
  unfolding main start_valid run_program start_opened
  main-panics lookup_env parse_request_uri database database' n valid interval low high opened
        done =
      rw (valid, opened)
        (start_hydrated-panics (load lookup_env)
          (hydrate s.checks (empty_cache s.checks database'.schema)) done
          (rw interval (seconds-wraps n low high)))
