-- ===== src/Tests/Database.antt =====
-- A database with one check and its channel, and the calls that succeed on it.
use cron_mon.Base.{◌≡◌, refl, some, List, [], ◌∷◌}
use cron_mon.Base.Text.{Text, text_eq}
use cron_mon.Model.{Check, Channel, Status, PingType, status_text}
use cron_mon.Table.{lookup, put}
use cron_mon.Cache.{set, with_write_lock}
use cron_mon.Cache.Keys.{IsKeyed}
use cron_mon.Alerts.{make_alert_channel}
use cron_mon.World.{World}
use cron_mon.Sqlite.{Db, ChannelRow, exec, format_time, parse_time}
use cron_mon.Sqlite.Checks
use cron_mon.Sqlite.Checks.{check_repository, check_row, put_row, row_allowed}
use cron_mon.Sqlite.Channels
use cron_mon.Sqlite.Channels.{channel_repository, joined, linked, scan_channel, scan_channels}
use cron_mon.Scheduler.{is_overdue, mark_down, visit, evaluate}
use cron_mon.Scheduler.Calls.{Updates, Queries}
use cron_mon.Handler.Ping.{completed}
use cron_mon.Handler.Ping.Alerting.{PingQueries}
use cron_mon.Base.Sorting.{sort_by, insert_by}
use cron_mon.Tests.Fixtures.{empty_db, hook, backup_id, backup, at, two_expressions}

abbrev hook_row : ChannelRow
hook_row = record {
  id = 1;
  type = hook.type;
  name = hook.name;
  config = hook.config;
  created_at = format_time hook.created_at;
}

-- The check, as it is written, with its channel.
abbrev holding : Check → Db
holding c = record (put_row backup_id (check_row c) empty_db) {
  channels = hook_row ∷ [];
  check_channels = (backup_id, 1) ∷ [];
}

abbrev pub on_disk : Check → World Db
on_disk c = record {
  cache = record { checks = (backup_id, c) ∷ []; db = holding c };
  alerts = make_alert_channel;
}

-- The check was expected 90 seconds after the epoch.
abbrev pub late : Check
late = backup (some (at 90))

-- The check after it was taken down.
abbrev pub fallen : Check
fallen = record late { status = Status.down }

abbrev pub subscribed : Text → List Channel
subscribed id = hook ∷ []

pub on_disk-IsKeyed : (c : Check) → backup_id ≡ c.id → IsKeyed (on_disk c).cache.checks
on_disk-IsKeyed c e = record { keyed = (e, tt); distinct = (tt, tt) }

pub late-Updates : Updates check_repository (at 100) (on_disk late)
unfolding lookup put text_eq check_row row_allowed status_text format_time exec mark_down is_overdue
    visit set Checks.update
late-Updates = (λ h. refl, tt)

pub late-Queries : Queries channel_repository subscribed check_repository (at 100) (on_disk late)
unfolding lookup put text_eq check_row row_allowed status_text format_time exec mark_down is_overdue
    visit set with_write_lock Checks.update evaluate Channels.list_by_check_id sort_by insert_by
    joined linked scan_channel scan_channels parse_time
late-Queries = (refl, tt)

pub fallen-PingQueries :
    PingQueries channel_repository subscribed two_expressions check_repository PingType.fail
      (at 100)
      (on_disk fallen)
      fallen
unfolding lookup put text_eq check_row row_allowed status_text format_time exec completed set
    Checks.update Channels.list_by_check_id sort_by insert_by joined linked scan_channel
    scan_channels parse_time
fallen-PingQueries = (refl, (refl, tt))
