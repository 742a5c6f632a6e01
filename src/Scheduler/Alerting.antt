-- ===== src/Scheduler/Alerting.antt =====
-- evaluateAll of internal/scheduler/scheduler.go as a whole: its alerts, and what it keeps.
use mathlib.Core.Option
use cron_mon.Base.{
  ◌-◌, ◌≡◌, refl, sym, ◌∙◌, List, [], ◌∷◌, ◌++◌, map, Result, ok, err, length, take, All-unit,
}
use cron_mon.Base.Text.{Text}
use cron_mon.Time.{Time}
use cron_mon.Model.{Check, Channel, AlertType, AlertEvent}
use cron_mon.Repository.{CheckRepository, ChannelRepository}
use cron_mon.Table.{values}
use cron_mon.Cache.{get, with_write_lock}
use cron_mon.Cache.Keys.{IsKeyed, set-IsKeyed}
use cron_mon.Alerts.{AlertChannel, alert_event}
use cron_mon.Alerts.Capacity.{
  Fits, send_events, send_all-eq-send_events, send_events-append, queue-send_events,
  send_events-Fits,
}
use cron_mon.World.{World}
use cron_mon.Scheduler.{
  mark_down, evaluate, alert_channels, enqueue_alerts, alert_down, evaluate_all,
}
use cron_mon.Scheduler.Calls.{QueriesSucceed, Updates, Queries}
use cron_mon.Scheduler.Marking.{evaluate_inv}
use cron_mon.Scheduler.Pass.{downs, settled, evaluate-eq-downs, get-evaluate}

-- One event for each subscribed channel of each check.
abbrev pub down_events : (Text → List Channel) → List Check → List AlertEvent
down_events subscribed [] = []
down_events subscribed (c ∷ cs) =
    map (alert_event c AlertType.down) (subscribed c.id) ++ down_events subscribed cs

module _ {Db : Type 0} (channels : ChannelRepository Db) where
  pub checks-enqueue_alerts :
      (c : Check) (type : AlertType) (w : World Db)
      → (enqueue_alerts channels c type w).cache.checks ≡ w.cache.checks
  unfolding enqueue_alerts
  checks-enqueue_alerts c type w = refl

  pub checks-alert_down :
      (cs : List Check) (w : World Db) → (alert_down channels cs w).cache.checks ≡ w.cache.checks
  unfolding alert_down
  checks-alert_down [] w = refl
  checks-alert_down (c ∷ cs) w =
      checks-alert_down cs (enqueue_alerts channels c AlertType.down w)
      ∙ checks-enqueue_alerts c AlertType.down w

  alert_channels-Fits :
      (c : Check) (type : AlertType) (r : Result (List Channel)) (alerts : AlertChannel)
      → Fits alerts
      → Fits (alert_channels channels c type r alerts)
  unfolding alert_channels
  alert_channels-Fits c type (ok chs) alerts h =
      rw (send_all-eq-send_events c type chs alerts) (send_events-Fits _ alerts h)
  alert_channels-Fits c type (err e) alerts h = h

  pub enqueue_alerts-Fits :
      (c : Check) (type : AlertType) (w : World Db)
      → Fits w.alerts
      → Fits (enqueue_alerts channels c type w).alerts
  unfolding enqueue_alerts
  enqueue_alerts-Fits c type w h = alert_channels-Fits c type _ w.alerts h

  pub alert_down-Fits :
      (cs : List Check) (w : World Db) → Fits w.alerts → Fits (alert_down channels cs w).alerts
  unfolding alert_down
  alert_down-Fits [] w h = h
  alert_down-Fits (c ∷ cs) w h = alert_down-Fits cs _ (enqueue_alerts-Fits c AlertType.down w h)

  pub alerts-enqueue_alerts :
      (c : Check) (type : AlertType) (w : World Db) (chs : List Channel)
      → (channels.list_by_check_id c.id w.cache.db).0 ≡ ok chs
      → (enqueue_alerts channels c type w).alerts
        ≡ send_events (map (alert_event c type) chs) w.alerts
  unfolding enqueue_alerts
  alerts-enqueue_alerts c type w chs found = rw found (send_all-eq-send_events c type chs w.alerts)

  alerts-alert_down :
      (subscribed : Text → List Channel) (cs : List Check) (w : World Db)
      → QueriesSucceed channels subscribed (map (λ c. c.id) cs) w.cache.db
      → (alert_down channels cs w).alerts ≡ send_events (down_events subscribed cs) w.alerts
  unfolding alert_down send_events enqueue_alerts
  alerts-alert_down subscribed [] w found = refl
  alerts-alert_down subscribed (c ∷ cs) w found =
      alerts-alert_down subscribed cs (enqueue_alerts channels c AlertType.down w) found.1
      ∙ rw (alerts-enqueue_alerts c AlertType.down w (subscribed c.id) found.0) (
          sym
            (send_events-append (map (alert_event c AlertType.down) (subscribed c.id)) _ w.alerts))

module _ {Db : Type 0} (checks : CheckRepository Db) (channels : ChannelRepository Db) where
  pub evaluate_all-IsKeyed :
      (now : Time) (w : World Db)
      → IsKeyed w.cache.checks
      → IsKeyed (evaluate_all checks channels now w).cache.checks
  unfolding evaluate_all with_write_lock
  evaluate_all-IsKeyed now w v = rw (checks-alert_down channels _ _) (
      evaluate_inv checks now (λ sc. IsKeyed sc.checks) (λ _. Unit)
        (λ c sc _. set-IsKeyed checks sc (mark_down now c)) (values w.cache.checks) w.cache
        (All-unit (values w.cache.checks)) v)

  pub evaluate_all-Fits :
      (now : Time) (w : World Db) → Fits w.alerts → Fits (evaluate_all checks channels now w).alerts
  unfolding evaluate_all with_write_lock
  evaluate_all-Fits now w h = alert_down-Fits channels _ _ h

  module _ (now : Time) (w : World Db) (works : Updates checks now w) where
    -- If each update of a check that the pass makes succeeds, and each query for the channels of
    -- a check that it has taken down, then it queues one down event for each channel of each
    -- overdue check, in the order of the iteration, up to the free capacity of the alert channel,
    -- and drops the rest.
    pub queue-evaluate_all :
        (subscribed : Text → List Channel)
        → Queries channels subscribed checks now w
        → (evaluate_all checks channels now w).alerts.queue
          ≡ w.alerts.queue
            ++ take
                (w.alerts.capacity - length w.alerts.queue)
                (down_events subscribed (downs now (values w.cache.checks)))
    unfolding evaluate_all with_write_lock
    queue-evaluate_all subscribed found =
        let passed = evaluate checks now (values w.cache.checks) w.cache in
        let w' = record w { cache = passed.1 } in
        rw (alerts-alert_down channels subscribed passed.0 w' found) (
          rw (evaluate-eq-downs checks now (values w.cache.checks) w.cache works)
            (queue-send_events _ w.alerts))

    -- If each update of a check that the pass makes succeeds, a pass over a cache keyed by ID takes
    -- every overdue check down as of the pass, and leaves every other check as it was.
    pub get-evaluate_all :
        IsKeyed w.cache.checks
        → (k : Text)
        → get k (evaluate_all checks channels now w).cache
          ≡ Option.map (settled now) (get k w.cache)
    unfolding evaluate_all with_write_lock get
    get-evaluate_all v k =
        rw (checks-alert_down channels _ _) (get-evaluate checks now w.cache works v k)
