-- ===== src/Handler/Ping/Race.antt =====
-- A ping of internal/handler/ping.go around a pass of internal/scheduler/scheduler.go: `handle`
-- reads its check and writes it back in two steps, each under the lock of the cache.
use cron_mon.Base.{◌≡◌, refl, ◌∙◌, true, false, some, Result, ok, err}
use cron_mon.Base.Text.{text_eq_refl}
use cron_mon.Time.{Time}
use cron_mon.Model.{Check, PingType, is_down}
use cron_mon.Schedule.{Cron}
use cron_mon.Repository.{CheckRepository, ChannelRepository}
use cron_mon.Cache.{get, set}
use cron_mon.Cache.Keys.{IsKeyed}
use cron_mon.Cache.Lookup.{get-set}
use cron_mon.World.{World}
use cron_mon.Scheduler.{mark_down, is_overdue, evaluate_all}
use cron_mon.Scheduler.Calls.{Updates}
use cron_mon.Scheduler.Alerting.{get-evaluate_all}
use cron_mon.Handler.Ping.{completed, alert_completion, handle_complete, complete_or_start}
use cron_mon.Handler.Ping.Effects.{get-complete_or_start, id-pinged}

module _ (cron : Cron) {Db : Type 0} (checks : CheckRepository Db)
    (channels : ChannelRepository Db) where
  silent :
      (r : Result Unit) (c : Check) (w : World Db)
      → (alert_completion channels r false false c w).alerts ≡ w.alerts
  unfolding alert_completion
  silent (ok a) c w = refl
  silent (err e) c w = refl

  -- A success ping that has read an active check which is not down writes it back with no event.
  alerts-handle_complete :
      (c : Check) (now : Time) (w : World Db)
      → is_down c.status ≡ false
      → (handle_complete cron checks channels c now false w).alerts ≡ w.alerts
  unfolding handle_complete
  alerts-handle_complete c now w not_down = rw not_down (silent _ _ _)

  get-handle_complete :
      (c : Check) (now : Time) (w : World Db)
      → (checks.update (completed cron now c) w.cache.db).0 ≡ ok tt
      → get c.id (handle_complete cron checks channels c now false w).cache
        ≡ some (completed cron now c)
  unfolding complete_or_start set
  get-handle_complete c now w written =
      get-complete_or_start cron checks channels PingType.success c now w c.id
      ∙ get-set checks w.cache c.id (completed cron now c) written
      ∙ rw (id-pinged cron PingType.success now c) (rw (text_eq_refl c.id))

  -- If, between a success ping's read of an overdue check that is not down and its write, a pass
  -- runs each of whose updates succeeds, and the write succeeds, then the pass takes the check
  -- down, the write stores the check as if it had never been down, and no recovery event is sent.
  pub stale_ping_recovers_silently :
      (c : Check) (pass now : Time) (w : World Db)
      → Updates checks pass w
      → IsKeyed w.cache.checks
      → get c.id w.cache ≡ some c
      → is_down c.status ≡ false
      → is_overdue pass c ≡ true
      → (checks.update (completed cron now c) (evaluate_all checks channels pass w).cache.db).0
        ≡ ok tt
      → let w' = evaluate_all checks channels pass w in
        let w'' = handle_complete cron checks channels c now false w' in
        (get c.id w'.cache ≡ some (mark_down pass c))
        × (get c.id w''.cache ≡ some (completed cron now c))
        × (w''.alerts ≡ w'.alerts)
  stale_ping_recovers_silently c pass now w works v found not_down late written = (
    get-evaluate_all checks channels pass w works v c.id ∙ rw found (rw late),
    get-handle_complete c now (evaluate_all checks channels pass w) written,
    alerts-handle_complete c now _ not_down,
  )
