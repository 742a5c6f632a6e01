-- ===== src/Main/Program/Lives.antt =====
-- One life of the process of main.go under the invariant of the shared state.
use mathlib.Core.Path.{subst}
use cron_mon.Base.{
  ℕ, zero, suc, ◌≡◌, ◌<◌, refl, inl, inr, true, false, Option, none, some, [], arith, ok, err,
  String, Option-cases, Result,
}
use cron_mon.Base.Int.{ℤ, pos, negsuc, ◌≤ℤ◌, ◌*ℤ◌, ltb_ℤ, wrap_int64}
use cron_mon.Base.Text.{Text}
use cron_mon.Time.{Time, seconds}
use cron_mon.Model.Pausing.{pause_sound}
use cron_mon.Config.{Config, load, validate, validate-IsServable}
use cron_mon.Migrations.{Driver, Database, OpenError, open_database}
use cron_mon.Cache.{StateCache, empty_cache, hydrate}
use cron_mon.Cache.Keys.{hydrate-IsKeyed}
use cron_mon.Cache.Coherence.{CheckStore, hydrate-Coherent}
use cron_mon.Alerts.{make_alert_channel, receive}
use cron_mon.World.{World}
use cron_mon.System.{Services, LeavesChecks, deliver}
use cron_mon.System.Invariant.{Every, Inv}
use cron_mon.System.Runs.{run-Inv}
use cron_mon.System.Queries.{deliver-Inv}
use cron_mon.System.Draining.{work_off, drained, work_off-drained}
use cron_mon.Main.Program.{
  Life, Ending, invalid, not_opened, not_hydrated, panics, waits_forever, returns, shut_down,
  events, start_scheduler, start_hydrated, start_opened, run_program, start_valid, main,
}

pub seconds-positive :
    (n : ℤ) → pos 10 ≤ℤ n → n ≤ℤ pos 9_223_372_036 → ltb_ℤ (pos 0) (seconds n) ≡ true
unfolding seconds wrap_int64 ◌*ℤ◌
seconds-positive (pos n) low high = ground arith
seconds-positive (negsuc n) low high = ground arith

pub seconds-wraps :
    (n : ℕ) → 9_223_372_036 < n → n < 18_446_744_074 → ltb_ℤ (pos 0) (seconds (pos n)) ≡ false
unfolding seconds wrap_int64 ◌*ℤ◌
seconds-wraps n low high = ground arith

module _ {Db : Type 0} (s : Services Db) (laws : CheckStore s.checks) where
  -- The last state of a program that served: the invariant holds, and no alert waits.
  pub record Closed (error : Option Text) (life : Life) (w : World Db) : Type 0 where
    pub inv : Inv s laws w
    pub emptied : w.alerts.queue ≡ []
    pub reported : error ≡ life.serve_error

  -- What becomes of one life of the process: it neither panics nor waits for the worker forever.
  abbrev pub Ends : Life → Ending Db → Type 0
  Ends life (invalid e) = Unit {0}
  Ends life (not_opened e) = Unit {0}
  Ends life (not_hydrated e) = Unit {0}
  Ends life panics = ⊥
  Ends life waits_forever = ⊥
  Ends life (returns error w) = Closed error life w

  -- The checks that the cache is hydrated with from an opened database.
  abbrev pub SoundChecks : Driver Db → Life → Database Db → Type 0
  SoundChecks driver life database =
      Every (λ c. pause_sound c ≡ true)
        (hydrate s.checks
          (empty_cache s.checks (open_database driver life.opens database).1.schema)).1

  module _ (leaves : LeavesChecks s laws) where
    hydrate-Inv :
        (db : Db)
        → Every (λ c. pause_sound c ≡ true) (hydrate s.checks (empty_cache s.checks db)).1
        → (hydrate s.checks (empty_cache s.checks db)).0 ≡ ok tt
        → Inv s laws (record {
          cache = (hydrate s.checks (empty_cache s.checks db)).1;
          alerts = make_alert_channel;
        })
    unfolding empty_cache
    hydrate-Inv db sound e = record {
      keyed =
          hydrate-IsKeyed s.checks (empty_cache s.checks db) (record { keyed = tt; distinct = tt });
      coherent = hydrate-Coherent laws (empty_cache s.checks db) e;
      fits = omega arith;
      sound = sound;
    }

    work_off-Inv :
        (clock : ℕ → Time) (n : ℕ) (w w' : World Db)
        → Inv s laws w
        → work_off s clock n w ≡ some w'
        → Inv s laws w'
    unfolding work_off
    work_off-Inv clock zero w w' v = λ e. cc
    work_off-Inv clock (suc n) w w' v = elim (Option-cases (receive w.alerts)) [
      | inl p ↦ rw (p, work_off) (λ e. let same : w ≡ w' = cc in subst (Inv s laws) same v)
      | inr (received, p) ↦
          let after : Inv s laws (deliver s (clock n) (some received) w) =
            subst (λ o. Inv s laws (deliver s (clock n) o w)) p
              (deliver-Inv s laws leaves (clock n) w v) in
          rw (p, work_off)
            (λ e. work_off-Inv clock n (deliver s (clock n) (some received) w) w' after e)
    ]

    module _ (driver : Driver Db) (life : Life) where
      shut_down-Ends : (w : World Db) → Inv s laws w → Ends life (shut_down s driver life w)
      unfolding shut_down drained
      shut_down-Ends w v =
          let done = work_off-drained s life.clock w v.fits in
          rw (done, Ends)
            (record {
              inv = work_off-Inv life.clock (suc w.alerts.capacity) w _ v done;
              emptied = refl;
              reported = refl;
            })

      start_scheduler-Ends :
          (cfg : Config) (w : World Db)
          → ltb_ℤ (pos 0) (seconds cfg.scheduler_interval) ≡ true
          → Inv s laws w
          → Ends life (start_scheduler s driver life cfg w)
      unfolding start_scheduler
      start_scheduler-Ends cfg w positive v =
          rw positive (shut_down-Ends _ (run-Inv s laws leaves (events s driver life) w v))

      start_hydrated-Ends :
          (cfg : Config) (r : Result (Unit {0}) × StateCache Db)
          → ltb_ℤ (pos 0) (seconds cfg.scheduler_interval) ≡ true
          → (r.0 ≡ ok tt → Inv s laws (record { cache = r.1; alerts = make_alert_channel }))
          → Ends life (start_hydrated s driver life cfg r)
      unfolding start_hydrated
      start_hydrated-Ends cfg (err e, cache) positive v = tt
      start_hydrated-Ends cfg (ok done, cache) positive v =
          start_scheduler-Ends cfg _ positive (v refl)

      start_opened-Ends :
          (cfg : Config) (r : Option OpenError × Database Db)
          → ltb_ℤ (pos 0) (seconds cfg.scheduler_interval) ≡ true
          → Every (λ c. pause_sound c ≡ true) (hydrate s.checks (empty_cache s.checks r.1.schema)).1
          → Ends life (start_opened s driver life cfg r)
      unfolding start_opened
      start_opened-Ends cfg (some e, database) positive sound = tt
      start_opened-Ends cfg (none, database) positive sound =
          start_hydrated-Ends cfg (hydrate s.checks (empty_cache s.checks database.schema)) positive
            (hydrate-Inv database.schema sound)

      -- One life of the process, from the configuration and the database to run's return,
      -- whichever calls fail and in whatever order the goroutines take turns: scheduler.New does
      -- not panic, and the program does not wait forever for the worker. If it served, then at
      -- its return the cache agrees with the database, every check in it is paused exactly if it
      -- has saved a status to restore, which is not "paused", and no alert waits. This holds if
      -- SCHEDULER_INTERVAL is at most 9,223,372,036 and the checks read at the start are paused
      -- exactly if they have saved such a status.
      pub main-Ends :
          (lookup_env : String → Option Text) (parse_request_uri : Text → Option (Text × Text))
          (database : Database Db)
          → (load lookup_env).scheduler_interval ≤ℤ pos 9_223_372_036
          → SoundChecks driver life database
          → Ends life (main s driver life lookup_env parse_request_uri database)
      unfolding main start_valid run_program
      main-Ends lookup_env parse_request_uri database high sound =
          let cfg = load lookup_env in
          elim (Option-cases (validate parse_request_uri cfg)) [
            | inl p ↦
                let valid = validate-IsServable parse_request_uri cfg p in
                rw p (
                  start_opened-Ends cfg (open_database driver life.opens database)
                    (seconds-positive cfg.scheduler_interval valid.paced high) sound)
            | inr (e, p) ↦ rw p tt
          ]
