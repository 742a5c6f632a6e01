-- ===== src/Tests/Scheduling.antt =====
-- The theorems on internal/scheduler and internal/schedule at concrete inputs.
use mathlib.Core.Option
use cron_mon.Base.{◌-◌, ◌*◌, ◌≡◌, ◌⊎◌, refl, ◌++◌, length, take, arith}
use cron_mon.Base.Int.{pos, ◌+ℤ◌, ◌<ℤ◌}
use cron_mon.Time.{Time, minute, zero_time, add, minutes}
use cron_mon.Schedule.{parse_schedule, next_after, next_expected_at}
use cron_mon.Schedule.Deadline.{next_expected_at_later, next_expected_at_overflow}
use cron_mon.Table.{values}
use cron_mon.Base.Text.{trim_space}
use cron_mon.Cache.{get}
use cron_mon.Scheduler.{evaluate, evaluate_all}
use cron_mon.Scheduler.Pass.{Settles, settled, downs, evaluate-Settles}
use cron_mon.Scheduler.Alerting.{down_events, get-evaluate_all, queue-evaluate_all}
use cron_mon.Sqlite.Checks.{check_repository}
use cron_mon.Sqlite.Channels.{channel_repository}
use cron_mon.Tests.Database.{on_disk, late, subscribed, on_disk-IsKeyed, late-Updates, late-Queries}
use cron_mon.Tests.Fixtures.{
  every_minute, parse_expression, next_minute, two_expressions, two_expressions-IsCron, backup_id,
  at,
}

evaluate-Settles_example : Settles (at 100) (get backup_id (on_disk late).cache) (
    get backup_id
      (evaluate check_repository
        (at 100)
        (values (on_disk late).cache.checks)
        (on_disk late).cache).1)
evaluate-Settles_example =
    evaluate-Settles check_repository (at 100) (on_disk late).cache (on_disk-IsKeyed late refl)
      backup_id

get-evaluate_all_example :
    get backup_id (evaluate_all check_repository channel_repository (at 100) (on_disk late)).cache
    ≡ Option.map (settled (at 100)) (get backup_id (on_disk late).cache)
get-evaluate_all_example =
    get-evaluate_all check_repository channel_repository (at 100) (on_disk late) late-Updates
      (on_disk-IsKeyed late refl) backup_id

queue-evaluate_all_example :
    (evaluate_all check_repository channel_repository (at 100) (on_disk late)).alerts.queue
    ≡ (on_disk late).alerts.queue
      ++ take
          ((on_disk late).alerts.capacity - length (on_disk late).alerts.queue)
          (down_events subscribed (downs (at 100) (values (on_disk late).cache.checks)))
queue-evaluate_all_example =
    queue-evaluate_all check_repository channel_repository (at 100) (on_disk late) late-Updates
      subscribed late-Queries

next_expected_at_later_example :
    (at 90 +ℤ pos (5 * minute) <ℤ at 420) ⊎ (at 420 ≡ zero_time +ℤ pos (5 * minute))
unfolding next_expected_at next_after parse_schedule minutes trim_space parse_expression ◌+ℤ◌
    next_minute
next_expected_at_later_example =
    next_expected_at_later two_expressions every_minute two_expressions-IsCron 5 (at 90) (at 420)
      (omega arith) refl

-- 153,722,868 minutes after an activation at two minutes.
abbrev wrapped : Time
wrapped = add (at 120) (minutes (pos 153_722_868))

next_expected_at_overflow_example : wrapped <ℤ at 120
unfolding next_expected_at next_after parse_schedule trim_space parse_expression next_minute
next_expected_at_overflow_example =
    next_expected_at_overflow two_expressions every_minute 153_722_868 (at 90) (at 120) wrapped
      (omega arith) (omega arith) refl refl
