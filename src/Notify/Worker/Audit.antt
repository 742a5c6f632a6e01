-- ===== src/Notify/Worker/Audit.antt =====
-- What the worker of internal/notify/worker.go leaves in the notifications table.
use cron_mon.Base.{
  ℕ, suc, ◌≡◌, refl, sym, ◌∙◌, inl, inr, true, none, some, is_some, List, [], ◌∷◌, ◌++◌, All,
  if◌then◌else◌, Bool-cases,
}
use mathlib.Core.List.{append-nil, append_assoc}
use cron_mon.Base.Text.{Text}
use cron_mon.Time.{Time}
use cron_mon.Model.{AlertEvent}
use cron_mon.Table.{Table, lookup}
use cron_mon.Sqlite.{Db, NotificationRow, ChannelRow, exec, format_time}
use cron_mon.Sqlite.Channels.{find_row}
use cron_mon.Sqlite.Notifications.{create, refers, notification_repository}
use cron_mon.Notify.Worker.{Notifier, outcome, dispatch, run}

module _ (notifiers : Table Notifier) (no_notifier : Text → Text) where
  -- The row that an event leaves, under a key and beside some channels.
  abbrev pub audit_row : List ChannelRow → ℕ → Time → AlertEvent → NotificationRow
  audit_row channels id now event = record {
    id = id;
    check_id = event.check.id;
    channel_id =
        if is_some (find_row event.channel.id channels) then some event.channel.id else none;
    type = event.alert_type;
    sent_at = format_time now;
    error = outcome notifiers no_notifier (lookup event.channel.type notifiers) event;
  }

  -- The rows that events leave, one for each, in their order.
  abbrev pub audit_rows : List ChannelRow → ℕ → List (Time × AlertEvent) → List NotificationRow
  audit_rows channels id [] = []
  audit_rows channels id ((now, event) ∷ events) =
      audit_row channels id now event ∷ audit_rows channels (suc id) events

  -- The database with one more notification.
  abbrev noted : Db → NotificationRow → Db
  noted db row = record db {
    notifications = db.notifications ++ row ∷ [];
    next_notification = suc db.next_notification;
    faults = [];
  }

  dispatch-noted :
      (now : Time) (event : AlertEvent) (db : Db)
      → db.faults ≡ []
      → is_some (lookup event.check.id db.checks) ≡ true
      → dispatch notifiers no_notifier notification_repository now event db
        ≡ noted db (audit_row db.channels db.next_notification now event)
  unfolding dispatch create exec refers
  dispatch-noted now event db quiet there =
      elim (Bool-cases (is_some (find_row event.channel.id db.channels))) [
        | inl p ↦ rw (quiet, there, p) refl
        | inr p ↦ rw (quiet, there, p, there) refl
      ]

  -- If the events' checks are in the database and the driver does not fail, the worker leaves one
  -- new row for each event, in their order: with the alert and the outcome of its delivery, and
  -- with the channel unless that has been deleted since.
  pub notifications-run :
      (events : List (Time × AlertEvent)) (db : Db)
      → db.faults ≡ []
      → All (λ e. is_some (lookup e.1.check.id db.checks) ≡ true) events
      → (run notifiers no_notifier notification_repository events db).notifications
        ≡ db.notifications ++ audit_rows db.channels db.next_notification events
  unfolding run
  notifications-run [] db quiet there = sym (append-nil db.notifications)
  notifications-run ((now, event) ∷ events) db quiet there =
      let db' = noted db (audit_row db.channels db.next_notification now event) in
      rw (dispatch-noted now event db quiet there.0, run)
        (notifications-run events db' refl there.1 ∙ append_assoc db.notifications _ _)
