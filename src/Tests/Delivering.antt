-- ===== src/Tests/Delivering.antt =====
-- The theorems on internal/notify and internal/netutil at concrete inputs.
use cron_mon.Base.{
  ◌≡◌, refl, true, false, Option, none, some, List, [], ◌∷◌, ◌++◌, All, arith, if◌then◌else◌,
}
use cron_mon.Base.Text.{Text, text_eq, quoted}
use cron_mon.Model.{AlertType, AlertEvent}
use cron_mon.Time.{Time}
use cron_mon.Alerts.{alert_event}
use cron_mon.Table.{Table, put, lookup}
use cron_mon.Net.{split_host_port}
use cron_mon.Sqlite.{Db}
use cron_mon.Sqlite.Checks.{check_row, put_row}
use cron_mon.Sqlite.Notifications.{notification_repository}
use cron_mon.Notify.Ip.{Ip, is_private_ip, mapped_prefix, private_v4, is_private_ip-v4}
use cron_mon.Notify.Ssrf.{Vetted, any_rejected, dial_context, dial_context-Vetted}
use cron_mon.Notify.Worker.{Notifier, run}
use cron_mon.Notify.Worker.Audit.{audit_rows, notifications-run}
use cron_mon.Tests.Fixtures.{backup_id, backup, at, hook, empty_db}

is_private_ip-v4_example :
    (is_private_ip (172 ∷ 20 ∷ 0 ∷ 1 ∷ []) ≡ private_v4 172 20)
    × (is_private_ip (mapped_prefix ++ 172 ∷ 20 ∷ 0 ∷ 1 ∷ []) ≡ private_v4 172 20)
is_private_ip-v4_example =
    is_private_ip-v4 172 20 0 1 (omega arith) (omega arith) (omega arith) (omega arith)

parse_two : Text → Option Ip
parse_two ip =
    if text_eq ip (quoted "203.0.113.7")
    then some (203 ∷ 0 ∷ 113 ∷ 7 ∷ [])
    else if text_eq ip (quoted "10.0.0.1")
    then some (10 ∷ 0 ∷ 0 ∷ 1 ∷ [])
    else none

abbrev both : List Text
both = quoted "203.0.113.7" ∷ []

dial_context-Vetted_example :
    All
      (λ a. Vetted parse_two (quoted "443") both a × (any_rejected parse_two both ≡ false))
      (dial_context parse_two
        (λ host. some both)
        (λ ips. false)
        (λ addr. true)
        (quoted "example.com:443")).1
unfolding split_host_port
dial_context-Vetted_example =
    dial_context-Vetted parse_two (λ host. some both) (λ ips. false) (λ addr. true)
      (quoted "example.com:443") (quoted "example.com") (quoted "443") both refl refl

abbrev with_check : Db
with_check = put_row backup_id (check_row (backup none)) empty_db

abbrev refusing : Table Notifier
refusing = (quoted "webhook", record { send = λ event. some (quoted "timeout") }) ∷ []

abbrev alerts : List (Time × AlertEvent)
alerts = (at 100, alert_event (backup none) AlertType.down hook) ∷ []

notifications-run_example :
    (run refusing (λ t. t) notification_repository alerts with_check).notifications
    ≡ with_check.notifications
      ++ audit_rows refusing (λ t. t) with_check.channels with_check.next_notification alerts
unfolding put lookup text_eq
notifications-run_example = notifications-run refusing (λ t. t) alerts with_check refl (refl, tt)
