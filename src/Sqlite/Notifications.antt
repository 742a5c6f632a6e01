-- ===== src/Sqlite/Notifications.antt =====
-- internal/repository/notification_repo.go
use cron_mon.Base.{
  ℕ, suc, Bool, true, ◌&&◌, ◌||◌, not, Option, none, some, is_some, List, [], ◌∷◌, ◌++◌, take,
  Result, ok, err, failed, leb, if◌then◌else◌,
}
use cron_mon.Base.Int.{ltb_ℤ}
use cron_mon.Base.Sorting.{sort_by}
use cron_mon.Base.Text.{Text, text_eq}
use cron_mon.Model.{Notification}
use cron_mon.Repository.{NotificationRepository}
use cron_mon.Table.{lookup}
use cron_mon.Sqlite.{NotificationRow, Db, exec, format_time, parse_time, ◌>>=◌}
use cron_mon.Sqlite.Channels.{find_row}

-- scanNotification
unfoldable pub scan_notification : NotificationRow → Result Notification
unfolding parse_time
scan_notification row = do
  sent ← parse_time row.sent_at
  ok (record {
    id = row.id;
    check_id = row.check_id;
    channel_id = row.channel_id;
    type = row.type;
    sent_at = sent;
    error = row.error;
  })

-- REFERENCES channels(id), where NULL refers to nothing.
unfoldable pub refers : Option ℕ → Db → Bool
unfolding find_row
refers none db = true
refers (some channel) db = is_some (find_row channel db.channels)

-- The row that Create writes.
abbrev pub notification_row : Notification → ℕ → NotificationRow
notification_row n id = record {
  id = id;
  check_id = n.check_id;
  channel_id = n.channel_id;
  type = n.type;
  sent_at = format_time n.sent_at;
  error = n.error;
}

abbrev pub insert_row : Notification → Db → Db
insert_row n db = record db {
  notifications = db.notifications ++ notification_row n db.next_notification ∷ [];
  next_notification = suc db.next_notification;
}

-- Create, whose result is the ID that it sets.
unfoldable pub create : Notification → Db → Result ℕ × Db
unfolding exec refers lookup find_row
create n = exec (λ db.
    if is_some (lookup n.check_id db.checks) && refers n.channel_id db
    then (ok db.next_notification, insert_row n db)
    else (err failed, db))

rows_of : Text → List NotificationRow → List NotificationRow
rows_of id [] = []
rows_of id (n ∷ ns) = let rest = rows_of id ns in if text_eq n.check_id id then n ∷ rest else rest

-- ORDER BY sent_at DESC, id DESC
newer : NotificationRow → NotificationRow → Bool
newer a b = ltb_ℤ b.sent_at a.sent_at || (not (ltb_ℤ a.sent_at b.sent_at) && leb b.id a.id)

scan_all : List NotificationRow → Result (List Notification)
scan_all [] = ok []
scan_all (row ∷ rows) = do n ← scan_notification row; ns ← scan_all rows; ok (n ∷ ns)

-- ListByCheckID
unfoldable pub list_by_check_id : Text → ℕ → Db → Result (List Notification) × Db
unfolding exec rows_of newer sort_by scan_all scan_notification
list_by_check_id id limit =
    exec (λ db. (scan_all (take limit (sort_by newer (rows_of id db.notifications))), db))

abbrev pub notification_repository : NotificationRepository Db
notification_repository = record { create = create; list_by_check_id = list_by_check_id }
