-- ===== src/Tests/Pinging.antt =====
-- The theorems on internal/handler at concrete inputs.
use cron_mon.Base.{◌≡◌, refl, true, false, none, some, ok, arith, if◌then◌else◌}
use cron_mon.Base.Int.{◌+ℤ◌}
use cron_mon.Base.Text.{text_eq, trim_space}
use cron_mon.Table.{Table, lookup}
use cron_mon.Time.{minutes}
use cron_mon.Model.{Check, PingType, Status}
use cron_mon.Schedule.{parse_schedule, validate, next_after, next_expected_at}
use cron_mon.Cache.{get, set}
use cron_mon.Cache.Keys.{IsKeyed}
use cron_mon.World.{World}
use cron_mon.Alerts.Capacity.{send_events}
use cron_mon.Scheduler.{is_overdue, mark_down, evaluate_all}
use cron_mon.Handler.Ping.{handle, handle_complete, completed}
use cron_mon.Handler.Ping.Effects.{pinged, ping_events, get-handle}
use cron_mon.Handler.Ping.Alerting.{alerts-handle}
use cron_mon.Handler.Ping.Deadlines.{is_overdue-completed, never_fires-is_overdue}
use cron_mon.Handler.Ping.Race.{stale_ping_recovers_silently}
use cron_mon.Handler.Check.{toggled}
use cron_mon.Handler.Check.Forms.{toggled-toggled}
use cron_mon.Model.{status_text}
use cron_mon.Table.{put}
use cron_mon.Sqlite.{exec, format_time}
use cron_mon.Sqlite.Checks
use cron_mon.Sqlite.Checks.{check_repository, check_row, row_allowed}
use cron_mon.Sqlite.Channels.{channel_repository, list_by_check_id}
use cron_mon.Sqlite.Pings.{ping_repository}
use cron_mon.Scheduler.{evaluate, visit, alert_down, enqueue_alerts}
use cron_mon.Cache.{with_write_lock}
use cron_mon.Tests.Database.{
  on_disk, late, fallen, subscribed, on_disk-IsKeyed, late-Updates, fallen-PingQueries,
}
use cron_mon.Tests.Fixtures.{
  february_30, parse_expression, next_minute, two_expressions, two_expressions-IsCron,
  memory_checks, one_channel, no_pings, backup_id, backup, at, world_of, ping_request,
}

-- The check after it was taken down.
abbrev down_backup : Check
down_backup = record (backup (some (at 90))) { status = Status.down }

abbrev down_world : World (Table Check)
down_world = world_of down_backup

down_world-IsKeyed : IsKeyed down_world.cache.checks
down_world-IsKeyed = record { keyed = (refl, tt); distinct = (tt, tt) }

abbrev paused_backup : Check
paused_backup = record (backup none) { status = Status.paused; pre_pause_status = some Status.up }

get-handle_example :
    get backup_id
      (handle two_expressions memory_checks one_channel no_pings false backup_id PingType.fail
        (at 100)
        ping_request
        down_world).1.cache
    ≡ (if text_eq backup_id backup_id
        then some (pinged two_expressions PingType.fail (at 100) down_backup)
        else get backup_id down_world.cache)
unfolding get set lookup text_eq
get-handle_example =
    get-handle two_expressions memory_checks one_channel no_pings false backup_id PingType.fail
      (at 100) ping_request down_world down_backup refl refl down_world-IsKeyed refl backup_id

alerts-handle_example :
    (handle two_expressions check_repository channel_repository ping_repository false backup_id
      PingType.fail
      (at 100)
      ping_request
      (on_disk fallen)).1.alerts
    ≡ send_events
        (ping_events subscribed two_expressions PingType.fail (at 100) fallen)
        (on_disk fallen).alerts
unfolding get set lookup text_eq Checks.update exec put check_row row_allowed status_text completed
alerts-handle_example =
    alerts-handle channel_repository subscribed two_expressions check_repository ping_repository
      false backup_id PingType.fail (at 100) ping_request (on_disk fallen) fallen refl refl refl
      fallen-PingQueries

is_overdue-completed_example :
    is_overdue (at 300) (completed two_expressions (at 100) down_backup) ≡ false
unfolding next_expected_at next_after parse_schedule minutes ◌+ℤ◌ trim_space parse_expression
    next_minute
is_overdue-completed_example =
    is_overdue-completed two_expressions down_backup 5 (at 100) (at 300) two_expressions-IsCron
      (at 420) refl (omega arith) refl (λ h. cc h) (omega arith)

abbrev february_check : Check
february_check = record (backup none) { schedule = february_30 }

never_fires-is_overdue_example :
    (validate two_expressions february_check.schedule ≡ true)
    × (is_overdue (at 100) (completed two_expressions (at 100) february_check) ≡ true)
unfolding parse_schedule next_minute ◌+ℤ◌ trim_space parse_expression
never_fires-is_overdue_example =
    never_fires-is_overdue two_expressions february_check 5 (at 100) (at 100) false refl refl refl
      (omega arith) refl (omega arith)

late-write :
    (Checks.update
      (completed two_expressions (at 101) late)
      (evaluate_all check_repository channel_repository (at 100) (on_disk late)).cache.db).0
    ≡ ok tt
unfolding Checks.update exec lookup put text_eq check_row row_allowed status_text format_time
    completed evaluate_all evaluate visit set mark_down is_overdue alert_down with_write_lock
    enqueue_alerts list_by_check_id
late-write = refl

stale_ping_recovers_silently_example :
    let w' = evaluate_all check_repository channel_repository (at 100) (on_disk late) in
    let w'' =
      handle_complete two_expressions check_repository channel_repository late (at 101) false w' in
    (get backup_id w'.cache ≡ some (mark_down (at 100) late))
    × (get backup_id w''.cache ≡ some (completed two_expressions (at 101) late))
    × (w''.alerts ≡ w'.alerts)
unfolding get is_overdue lookup text_eq evaluate_all
stale_ping_recovers_silently_example =
    stale_ping_recovers_silently two_expressions check_repository channel_repository late (at 100)
      (at 101) (on_disk late) late-Updates (on_disk-IsKeyed late refl) refl refl refl late-write

toggled-toggled_example :
    toggled (at 20) (toggled (at 10) paused_backup) ≡ record paused_backup { updated_at = at 20 }
toggled-toggled_example = toggled-toggled (at 10) (at 20) paused_backup refl
