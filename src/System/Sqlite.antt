-- ===== src/System/Sqlite.antt =====
-- The program as main.go wires it, with the SQLite repositories.
use cron_mon.Base.{arith, Bool, List}
use cron_mon.Base.Text.{Text}
use cron_mon.Time.{Time}
use cron_mon.Schedule.{Cron}
use cron_mon.World.{World}
use cron_mon.Table.{Table}
use cron_mon.Sqlite.{Db, exec}
use cron_mon.Sqlite.Notifications
use cron_mon.Sqlite.Notifications.{notification_repository}
use cron_mon.Notify.Worker.{Notifier}
use cron_mon.Handler.Channel.Validation.{Library}
use cron_mon.Sqlite.Checks.{check_repository}
use cron_mon.Sqlite.Pings
use cron_mon.Sqlite.Pings.{ping_repository}
use cron_mon.Sqlite.Channels
use cron_mon.Sqlite.Channels.{channel_repository, delete_channel, link_statement}
use cron_mon.Sqlite.Store.{check_store}
use cron_mon.System.{Services, LeavesChecks, Event, run}
use cron_mon.System.Invariant.{Inv}
use cron_mon.System.Runs.{run-Inv}

-- What surrounds the program.
pub record Outside : Type 1 where
  pub cron : Cron
  pub trusted_proxy : Bool
  pub lib : Library
  pub rfc3339 : Time → Text
  pub base_url : Text
  pub notifiers : Time → Table Notifier
  pub no_notifier : Text → Text

module _ (outside : Outside) where
  abbrev pub sqlite_services : Services Db
  sqlite_services = record {
    cron = outside.cron;
    checks = check_repository;
    channels = channel_repository;
    ping_rows = ping_repository;
    trusted_proxy = outside.trusted_proxy;
    notifications = notification_repository;
    lib = outside.lib;
    rfc3339 = outside.rfc3339;
    base_url = outside.base_url;
    notifiers = outside.notifiers;
    no_notifier = outside.no_notifier;
  }

  pub leaves : LeavesChecks sqlite_services check_store
  unfolding Channels.list_by_check_id Channels.create Channels.get_by_id Channels.list_all
      Channels.delete Channels.attach_to_check Channels.detach_from_check Pings.create
      Pings.delete_oldest Pings.list_by_check_id Notifications.create Notifications.list_by_check_id
      delete_channel link_statement exec
  leaves = record {
    by_channels = λ id db k. ground arith;
    by_create = λ p db k. ground arith;
    by_delete_oldest = λ id n db k. ground arith;
    by_list_pings = λ id n db k. ground arith;
    by_create_channel = λ ch db k. ground arith;
    by_get_channel = λ id db k. ground arith;
    by_list_channels = λ db k. ground arith;
    by_delete_channel = λ id db k. ground arith;
    by_attach = λ id ch db k. ground arith;
    by_detach = λ id ch db k. ground arith;
    by_create_notification = λ n db k. ground arith;
    by_list_notifications = λ id n db k. ground arith;
  }

  -- Every run of pings, scheduler ticks, cleanups, edits of checks and channels, dashboard pages
  -- and deliveries of alerts over the SQLite repositories, whichever statements fail in the
  -- driver, keeps the cache keyed by ID and equal to what the `checks` table reads back, the
  -- alert channel within its capacity, and every cached check paused exactly if it has saved a
  -- status to restore, which is not "paused".
  pub run-Inv-sqlite :
      (es : List Event) (w : World Db)
      → Inv sqlite_services check_store w
      → Inv sqlite_services check_store (run sqlite_services es w)
  run-Inv-sqlite = run-Inv sqlite_services check_store leaves
