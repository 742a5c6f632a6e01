-- ===== src/Notify/Worker.antt =====
-- internal/notify/worker.go: the worker that delivers the alerts and records each outcome. A
-- notifier's Send is a parameter: `none` for no error, else the error's text.
pub mod Audit
use cron_mon.Base.{
  ℕ, suc, ◌≡◌, refl, Bool, true, false, Option, none, some, List, [], ◌∷◌, Result, ok, err, Error,
  arith,
}
use cron_mon.Base.Text.{Text}
use cron_mon.Time.{Time}
use cron_mon.Model.{Notification, AlertEvent}
use cron_mon.Repository.{NotificationRepository}
use cron_mon.Table.{Table, lookup}

-- Notifier
pub record Notifier : Type 0 where
  pub send : AlertEvent → Option Text

-- `no_notifier t` is the message "no notifier registered for channel type %q" at `t`.
module _ (notifiers : Table Notifier) (no_notifier : Text → Text) where
  unfoldable pub outcome : Option Notifier → AlertEvent → Option Text
  outcome none event = some (no_notifier event.channel.type)
  outcome (some notifier) event = notifier.send event

  -- The record of an event whose delivery ended with `error`.
  abbrev pub notification : Time → AlertEvent → Notification
  notification now event = record {
    id = 0;
    check_id = event.check.id;
    channel_id = some event.channel.id;
    type = event.alert_type;
    sent_at = now;
    error = outcome (lookup event.channel.type notifiers) event;
  }

  module _ {Db : Type 0} (notif_repo : NotificationRepository Db) where
    -- The second attempt, after the first failed: without the channel.
    unfoldable pub retry : Notification → Result ℕ × Db → Db
    retry n (ok id, db) = db
    retry n (err e, db) = (notif_repo.create (record n { channel_id = none }) db).1

    unfoldable pub dispatch : Time → AlertEvent → Db → Db
    unfolding outcome retry lookup
    dispatch now event db = let n = notification now event in retry n (notif_repo.create n db)

    -- run: every event that was queued before the channel was closed, with the times it is sent at.
    unfoldable pub run : List (Time × AlertEvent) → Db → Db
    unfolding dispatch
    run [] db = db
    run ((now, event) ∷ events) db = run events (dispatch now event db)
