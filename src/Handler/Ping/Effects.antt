-- ===== src/Handler/Ping/Effects.antt =====
-- What a ping of internal/handler/ping.go does to the cache and to the alert channel.
use cron_mon.Base.{
  ◌≡◌, refl, ◌∙◌, inl, inr, Bool, true, false, ◌&&◌, Option, none, some, List, [], ◌++◌, map, arith,
  Result, ok, err, if◌then◌else◌, Bool-cases, Option-cases, not,
}
use cron_mon.Base.Text.{Text, text_eq}
use cron_mon.Time.{Time}
use cron_mon.Model.{Check, Channel, PingType, AlertType, AlertEvent, is_paused, is_down}
use cron_mon.Schedule.{Cron}
use cron_mon.Repository.{CheckRepository, ChannelRepository, PingRepository}
use cron_mon.Cache.{get, set}
use cron_mon.Cache.Keys.{IsKeyed, lookup-id}
use cron_mon.Cache.Lookup.{get-set}
use cron_mon.Alerts.{alert_event}
use cron_mon.World.{World}
use cron_mon.Scheduler.{enqueue_alerts}
use cron_mon.Http.{Request, ok_text}
use cron_mon.Handler.Ping.{
  started, completed, handle_start, handle_complete, alert_completion, complete_or_start,
  record_ping, handle_known, handle,
}

-- Whether a ping is heeded: its check is known and not paused.
abbrev pub heeded : Option Check → Bool
heeded none = false
heeded (some c) = not (is_paused c.status)

-- The check that a ping writes.
abbrev pub pinged : Cron → PingType → Time → Check → Check
pinged cron PingType.start now c = started now c
pinged cron PingType.success now c = completed cron now c
pinged cron PingType.fail now c = completed cron now c

-- A recovery event for each channel of a check that was down, and then, for a fail ping, a fail
-- event for each channel of a check with NotifyOnFail.
abbrev pub ping_events : (Text → List Channel) → Cron → PingType → Time → Check → List AlertEvent
ping_events subscribed cron PingType.start now c = []
ping_events subscribed cron PingType.success now c =
    if is_down c.status
    then map (alert_event (completed cron now c) AlertType.up) (subscribed c.id)
    else []
ping_events subscribed cron PingType.fail now c =
    (if is_down c.status
      then map (alert_event (completed cron now c) AlertType.up) (subscribed c.id)
      else [])
    ++ (if c.notify_on_fail
        then map (alert_event (completed cron now c) AlertType.fail) (subscribed c.id)
        else [])

module _ {Db : Type 0} (channels : ChannelRepository Db) where
  checks-alert_completion :
      (r : Result Unit) (was_down is_fail : Bool) (c : Check) (w : World Db)
      → (alert_completion channels r was_down is_fail c w).cache.checks ≡ w.cache.checks
  unfolding alert_completion enqueue_alerts
  checks-alert_completion (err e) was_down is_fail c w = refl
  checks-alert_completion (ok a) true is_fail c w =
      elim (Bool-cases (is_fail && c.notify_on_fail)) [ inl p ↦ rw p | inr p ↦ rw p ]
  checks-alert_completion (ok a) false is_fail c w =
      elim (Bool-cases (is_fail && c.notify_on_fail)) [ inl p ↦ rw p | inr p ↦ rw p ]

pub id-pinged :
    (cron : Cron) (t : PingType) (now : Time) (c : Check) → (pinged cron t now c).id ≡ c.id
unfolding started completed
id-pinged cron PingType.start now c = refl
id-pinged cron PingType.success now c = refl
id-pinged cron PingType.fail now c = refl

module _ (cron : Cron) {Db : Type 0} (checks : CheckRepository Db)
    (channels : ChannelRepository Db) where
  pub get-complete_or_start :
      (t : PingType) (c : Check) (now : Time) (w : World Db) (k : Text)
      → get k (complete_or_start cron checks channels t c now w).cache
        ≡ get k (set checks (pinged cron t now c) w.cache).1
  unfolding complete_or_start handle_start handle_complete get
  get-complete_or_start PingType.start c now w k = refl
  get-complete_or_start PingType.success c now w k = rw (checks-alert_completion channels _ _ _ _ _)
  get-complete_or_start PingType.fail c now w k = rw (checks-alert_completion channels _ _ _ _ _)

module _ (cron : Cron) {Db : Type 0} (checks : CheckRepository Db) (channels : ChannelRepository Db)
    (ping_rows : PingRepository Db) (trusted_proxy : Bool) (uuid : Text) (type : PingType)
    (now : Time) (r : Request) (w : World Db) where
  -- A ping for an unknown or a paused check is answered like any other, with 200 and OK, and
  -- changes nothing: not the cache, not the database, not the alert channel.
  pub handle-heeded :
      heeded (get uuid w.cache) ≡ false
      → handle cron checks channels ping_rows trusted_proxy uuid type now r w ≡ (ok_text, w)
  unfolding handle
  handle-heeded h = elim (Option-cases (get uuid w.cache)) [
    | inl e ↦ rw e refl
    | inr (c, e) ↦
        let p : is_paused c.status ≡ true = ground (arith, e) in rw e (rw (p, handle_known) refl)
  ]

  module _ (c : Check) (found : get uuid w.cache ≡ some c)
      (active : is_paused c.status ≡ false) where
    pub handle-known :
        (handle cron checks channels ping_rows trusted_proxy uuid type now r w).1
        ≡ record_ping ping_rows trusted_proxy c type now r
            (complete_or_start cron checks channels type c now w)
    unfolding handle
    handle-known = rw found (rw (active, handle_known))

  -- In a cache keyed by ID, a ping for an active check whose write succeeds replaces that check by
  -- the pinged one, and leaves every other check as it was.
  pub get-handle :
      (c : Check)
      → get uuid w.cache ≡ some c
      → is_paused c.status ≡ false
      → IsKeyed w.cache.checks
      → (set checks (pinged cron type now c) w.cache).0 ≡ ok tt
      → (k : Text)
      → get k (handle cron checks channels ping_rows trusted_proxy uuid type now r w).1.cache
        ≡ (if text_eq uuid k then some (pinged cron type now c) else get k w.cache)
  unfolding record_ping get
  get-handle c found active v written k = rw (handle-known c found active) (
      get-complete_or_start cron checks channels type c now w k
      ∙ get-set checks w.cache k (pinged cron type now c) written
      ∙ rw (id-pinged cron type now c) (rw (lookup-id uuid w.cache.checks v.keyed c found)))
