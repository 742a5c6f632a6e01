-- ===== src/Tests/Running.antt =====
-- The theorems on the running program of main.go at concrete inputs.
use mathlib.Core.List.{Memᴰ}
use cron_mon.Base.{
  ◌-◌, ◌≡◌, refl, false, some, [], ◌∷◌, ◌++◌, map, arith, length, take, replicate, ok,
}
use mathlib.Core.List.{reverse}
use cron_mon.Base.Text.{text_eq, quoted}
use cron_mon.Model.{Check, Ping, PingType}
use cron_mon.Repository.{NotificationRepository}
use cron_mon.Table.{Table, lookup}
use cron_mon.Cache.{get}
use cron_mon.Scheduler.{is_overdue}
use cron_mon.Scheduler.Pass.{downs}
use cron_mon.Handler.Dashboard.Squares.{
  grid_size, empty_square, square, build_ping_squares, build_ping_squares-newest,
}
use cron_mon.System.{Services}
use cron_mon.System.Draining.{work_off, drained, work_off-drained}
use cron_mon.System.Liveness.{Alerted, evaluate_all-Alerted}
use cron_mon.Middleware.{authorized}
use cron_mon.Main.Serve.{Application, saying, serve}
use cron_mon.Main.Mux.{is_dots}
use cron_mon.Main.Pings.{IsSegment, serve-ping_path}
use cron_mon.Handler.Ping.{handle}
use cron_mon.Base.Text.{contains}
use cron_mon.Main.Access.{PingedOrRefused, serve-PingedOrRefused}
use cron_mon.System.Sqlite.{sqlite_services}
use cron_mon.Tests.Database.{on_disk, late, subscribed, on_disk-IsKeyed, late-Updates, late-Queries}
use cron_mon.Tests.Storing.{outside}
use cron_mon.Tests.Fixtures.{
  any_library, two_expressions, memory_checks, one_channel, no_pings, hook, backup, backup_id, at,
  world_of, ping_request,
}

abbrev no_notifications : NotificationRepository (Table Check)
no_notifications = record { create = λ n db. (ok 1, db); list_by_check_id = λ id n db. (ok [], db) }

abbrev in_memory : Services (Table Check)
in_memory = record {
  cron = two_expressions;
  checks = memory_checks;
  channels = one_channel;
  ping_rows = no_pings;
  trusted_proxy = false;
  notifications = no_notifications;
  lib = any_library;
  rfc3339 = λ t. quoted "1970-01-01T00:01:40Z";
  base_url = quoted "https://example.com";
  notifiers = λ now. [];
  no_notifier = λ type. type;
}

-- The check was expected a minute after the epoch.
abbrev late_check : Check
late_check = backup (some (at 60))

work_off-drained_example :
    work_off in_memory at 65 (world_of late_check)
    ≡ some (drained in_memory at 65 (world_of late_check))
work_off-drained_example = work_off-drained in_memory at (world_of late_check) (omega arith)

evaluate_all-Alerted_example :
    Alerted (sqlite_services outside) at subscribed (at 100) (on_disk late) backup_id late hook
unfolding get lookup text_eq is_overdue downs
evaluate_all-Alerted_example =
    evaluate_all-Alerted (sqlite_services outside) at subscribed (at 100) (on_disk late) backup_id
      late hook (on_disk-IsKeyed late refl) refl refl (Memᴰ.head refl) (omega arith) late-Updates
      late-Queries

abbrev server : Application (Table Check)
server = record {
  services = in_memory;
  env = record { sha256 = λ s. s; escaped_path = λ r. r.path; unescape = λ s. s };
  admin_user = quoted "admin";
  admin_pass = quoted "secret";
}

serve-PingedOrRefused_example :
    PingedOrRefused server
      (at 100)
      ping_request
      (world_of late_check)
      (serve server (quoted "b2") (at 100) ping_request (world_of late_check))
unfolding authorized
serve-PingedOrRefused_example =
    serve-PingedOrRefused server (quoted "b2") (at 100) ping_request (world_of late_check) refl

abbrev one_ping : Ping
one_ping = record {
  id = 1;
  check_id = backup_id;
  type = PingType.success;
  created_at = at 100;
  source_ip = quoted "203.0.113.7";
}

build_ping_squares-newest_example :
    build_ping_squares (λ t. quoted "1970-01-01T00:01:40Z") (one_ping ∷ [])
    ≡ replicate (grid_size - length (one_ping ∷ [])) empty_square
      ++ reverse
          (map (square (λ t. quoted "1970-01-01T00:01:40Z")) (take grid_size (one_ping ∷ [])))
build_ping_squares-newest_example =
    build_ping_squares-newest (λ t. quoted "1970-01-01T00:01:40Z") (one_ping ∷ [])

backup_id-IsSegment : IsSegment backup_id
unfolding contains is_dots text_eq
backup_id-IsSegment = record { unslashed = refl; unescaped = refl; filled = refl; undotted = refl }

serve-ping_path_example :
    serve server (quoted "b2") (at 100) ping_request (world_of late_check)
    ≡ saying server (
        handle two_expressions memory_checks one_channel no_pings false backup_id PingType.success
          (at 100)
          ping_request
          (world_of late_check))
serve-ping_path_example =
    serve-ping_path server (quoted "b2") (at 100) PingType.success backup_id ping_request
      (world_of late_check) (λ s h. refl) backup_id-IsSegment refl refl
