-- ===== src/Scheduler.antt =====
-- internal/scheduler/scheduler.go: the two passes of the background loop. The tickers are not
-- modelled: a pass is called with the time of its tick.
pub mod Calls
pub mod Marking
pub mod Pass
pub mod Alerting
pub mod Persisted
pub mod Loop
use cron_mon.Base.{
  ℕ, Bool, false, ◌&&◌, Option, none, some, List, [], ◌∷◌, ◌++◌, Result, ok, err, if◌then◌else◌,
}
use cron_mon.Base.Text.{Text}
use cron_mon.Time.{Time, after}
use cron_mon.Model.{Check, Channel, Status, AlertType, is_up}
use cron_mon.Repository.{CheckRepository, ChannelRepository, PingRepository}
use cron_mon.Cache.{StateCache, set, snapshot, with_write_lock}
use cron_mon.Alerts.{AlertChannel, send_all}
use cron_mon.World.{World, with_db}

abbrev pub keep_n : ℕ
keep_n = 1000

-- The three guards of the loop: up, with a deadline, which has passed.
unfoldable pub is_overdue : Time → Check → Bool
is_overdue now c =
    is_up c.status && elim c.next_expected_at [ none ↦ false | some deadline ↦ after now deadline ]

unfoldable pub mark_down : Time → Check → Check
mark_down now c = record c { status = Status.down; updated_at = now }

-- A check whose update failed is not alerted about.
abbrev transitioned : Result (Unit {0}) → Check → List Check
transitioned (ok _) c = c ∷ []
transitioned (err e) c = []

module _ {Db : Type 0} (checks : CheckRepository Db) where
  -- One round of the loop under the write lock: the transitioned check, if any.
  unfoldable pub visit : Time → Check → StateCache Db → List Check × StateCache Db
  visit now c sc =
      if is_overdue now c
      then (let (r, sc') = set checks (mark_down now c) sc in
          (transitioned r (mark_down now c), sc'))
      else ([], sc)

  -- Phase 1 of evaluateAll.
  unfoldable pub evaluate : Time → List Check → StateCache Db → List Check × StateCache Db
  evaluate now [] sc = ([], sc)
  evaluate now (c ∷ cs) sc =
      let (t, sc') = visit now c sc in let (ts, sc'') = evaluate now cs sc' in (t ++ ts, sc'')

module _ {Db : Type 0} (channels : ChannelRepository Db) where
  -- A failed query for the channels skips the check.
  unfoldable pub alert_channels :
      Check → AlertType → Result (List Channel) → AlertChannel → AlertChannel
  alert_channels check type (ok chs) alerts = send_all check type chs alerts
  alert_channels check type (err e) alerts = alerts

  -- List the channels of a check and send each an event; also `enqueueAlerts` of the ping handler.
  unfoldable pub enqueue_alerts : Check → AlertType → World Db → World Db
  unfolding alert_channels
  enqueue_alerts check type w =
      let (r, db') = channels.list_by_check_id check.id w.cache.db in
      record (with_db w db') { alerts = alert_channels check type r w.alerts }

  -- Phase 2 of evaluateAll.
  unfoldable pub alert_down : List Check → World Db → World Db
  alert_down [] w = w
  alert_down (c ∷ cs) w = alert_down cs (enqueue_alerts c AlertType.down w)

module _ {Db : Type 0} (checks : CheckRepository Db) (channels : ChannelRepository Db) where
  unfoldable pub evaluate_all : Time → World Db → World Db
  evaluate_all now w =
      let (ts, sc) = with_write_lock (evaluate checks now) w.cache in
      alert_down channels ts (record w { cache = sc })

module _ {Db : Type 0} (pings : PingRepository Db) where
  -- A failed deletion is only logged.
  unfoldable pub prune : List Check → Db → Db
  prune [] db = db
  prune (c ∷ cs) db = prune cs (pings.delete_oldest c.id keep_n db).1

  unfoldable pub cleanup_old_pings : World Db → World Db
  cleanup_old_pings w = with_db w (prune (snapshot w.cache) w.cache.db)
