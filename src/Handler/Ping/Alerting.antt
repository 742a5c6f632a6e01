-- ===== src/Handler/Ping/Alerting.antt =====
-- The alerts that a ping of internal/handler/ping.go enqueues.
use mathlib.Core.List.{append-nil}
use cron_mon.Base.{
  ◌≡◌, refl, sym, ap, ◌∙◌, Bool, true, false, ◌&&◌, some, List, [], ◌∷◌, ◌++◌, map, ok,
  if◌then◌else◌,
}
use cron_mon.Base.Text.{Text}
use cron_mon.Time.{Time}
use cron_mon.Model.{Check, Channel, PingType, AlertType, AlertEvent, is_paused, is_down}
use cron_mon.Schedule.{Cron}
use cron_mon.Repository.{CheckRepository, ChannelRepository, PingRepository}
use cron_mon.Cache.{get, set}
use cron_mon.Alerts.{alert_event}
use cron_mon.Alerts.Capacity.{send_events, send_events-append}
use cron_mon.World.{World}
use cron_mon.Scheduler.{enqueue_alerts}
use cron_mon.Scheduler.Calls.{QueriesSucceed}
use cron_mon.Scheduler.Alerting.{alerts-enqueue_alerts}
use cron_mon.Http.{Request}
use cron_mon.Handler.Ping.{
  completed, handle_start, handle_complete, alert_completion, complete_or_start, record_ping,
  handle,
}
use cron_mon.Handler.Ping.Effects.{pinged, ping_events, handle-known}

abbrev events_if : (Text → List Channel) → Bool → Check → AlertType → List AlertEvent
events_if subscribed b c type = if b then map (alert_event c type) (subscribed c.id) else []

-- The checks whose channels are asked for, one query for each kind of alert.
abbrev asked_if : Bool → Text → List Text
asked_if b id = if b then id ∷ [] else []

abbrev pub asked : PingType → Check → List Text
asked PingType.start c = []
asked PingType.success c = asked_if (is_down c.status) c.id
asked PingType.fail c = asked_if (is_down c.status) c.id ++ asked_if c.notify_on_fail c.id

module _ {Db : Type 0} (channels : ChannelRepository Db) (subscribed : Text → List Channel) where
  alerts_two :
      (a b : Bool) (c : Check) (w : World Db)
      → QueriesSucceed channels subscribed (asked_if a c.id ++ asked_if b c.id) w.cache.db
      → (let w' = (if a then enqueue_alerts channels c AlertType.up w else w) in
          (if b then enqueue_alerts channels c AlertType.fail w' else w')).alerts
        ≡ send_events
            (events_if subscribed b c AlertType.fail)
            (send_events (events_if subscribed a c AlertType.up) w.alerts)
  unfolding send_events enqueue_alerts
  alerts_two false false c w found = refl
  alerts_two true false c w found = alerts-enqueue_alerts channels c AlertType.up w _ found.0
  alerts_two false true c w found = alerts-enqueue_alerts channels c AlertType.fail w _ found.0
  alerts_two true true c w found =
      alerts-enqueue_alerts channels c AlertType.fail (enqueue_alerts channels c AlertType.up w) _
        found.1.0
      ∙ ap (send_events (events_if subscribed true c AlertType.fail))
          (alerts-enqueue_alerts channels c AlertType.up w _ found.0)

  alerts-alert_completion :
      (was_down is_fail : Bool) (c : Check) (w : World Db)
      → QueriesSucceed channels subscribed
          (asked_if was_down c.id ++ asked_if (is_fail && c.notify_on_fail) c.id)
          w.cache.db
      → (alert_completion channels (ok tt) was_down is_fail c w).alerts
        ≡ send_events
            (events_if subscribed was_down c AlertType.up
              ++ events_if subscribed (is_fail && c.notify_on_fail) c AlertType.fail)
            w.alerts
  unfolding alert_completion
  alerts-alert_completion was_down is_fail c w found =
      alerts_two was_down (is_fail && c.notify_on_fail) c w found
      ∙ sym (send_events-append (events_if subscribed was_down c AlertType.up) _ w.alerts)

  module _ (cron : Cron) (checks : CheckRepository Db) where
    -- The queries of a ping, after the write of its check.
    abbrev pub PingQueries : PingType → Time → World Db → Check → Type 0
    PingQueries type now w c =
        QueriesSucceed channels subscribed (asked type c)
          (set checks (pinged cron type now c) w.cache).1.db

    alerts-complete_or_start :
        (type : PingType) (c : Check) (now : Time) (w : World Db)
        → (set checks (pinged cron type now c) w.cache).0 ≡ ok tt
        → PingQueries type now w c
        → (complete_or_start cron checks channels type c now w).alerts
          ≡ send_events (ping_events subscribed cron type now c) w.alerts
    unfolding complete_or_start handle_start handle_complete send_events completed
    alerts-complete_or_start PingType.start c now w written found = refl
    alerts-complete_or_start PingType.success c now w written found = rw written (
        alerts-alert_completion (is_down c.status) false (completed cron now c) _
          (rw append-nil found)
        ∙ rw append-nil)
    alerts-complete_or_start PingType.fail c now w written found =
        rw written (alerts-alert_completion (is_down c.status) true (completed cron now c) _ found)

    -- If each query for channels that it makes succeeds, a ping for an active check whose write
    -- succeeds sends, where the alert channel has room, a recovery event to each channel exactly if
    -- the check was down and the ping is no start ping, and then a fail event to each channel
    -- exactly if it is a fail ping and the check asks for them.
    pub alerts-handle :
        (ping_rows : PingRepository Db) (trusted_proxy : Bool) (uuid : Text) (type : PingType)
        (now : Time) (r : Request) (w : World Db) (c : Check)
        → get uuid w.cache ≡ some c
        → is_paused c.status ≡ false
        → (set checks (pinged cron type now c) w.cache).0 ≡ ok tt
        → PingQueries type now w c
        → (handle cron checks channels ping_rows trusted_proxy uuid type now r w).1.alerts
          ≡ send_events (ping_events subscribed cron type now c) w.alerts
    unfolding record_ping
    alerts-handle ping_rows trusted_proxy uuid type now r w c found active written queried =
        rw
          (handle-known cron checks channels ping_rows trusted_proxy uuid type now r w c found
            active)
          (alerts-complete_or_start type c now w written queried)
