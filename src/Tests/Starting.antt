-- ===== src/Tests/Starting.antt =====
-- The theorems on main and run of main.go at concrete inputs.
use cron_mon.Base.{
  ◌≡◌, refl, inl, inr, arith, true, none, some, Option, [], ◌∷◌, String, if◌then◌else◌, Bool-cases,
}
use cron_mon.Base.Text.{Text, quoted, text_eq}
use cron_mon.Table.{lookup, put}
use cron_mon.Model.{status_text}
use cron_mon.Cache.{load, hydrate, hydrated, empty_cache, get}
use cron_mon.Strconv.{atoi, parse_bool}
use cron_mon.Config
use cron_mon.Config.{getenv, validate}
use cron_mon.Migrations.{Driver, Database, open_database}
use cron_mon.Sqlite.{Db, exec, format_time, parse_time, parse_time_ptr, status_of_text, instant}
use cron_mon.Sqlite.Checks.{check_row, list_all, ordered, scan_all, scan_check}
use cron_mon.Sqlite.Store.{check_store}
use cron_mon.System.{delivers}
use cron_mon.System.Sqlite.{sqlite_services, leaves}
use cron_mon.Scheduler.Loop.{eval_tick, stop}
use cron_mon.Main.Program.{Life, panics, main}
use cron_mon.Main.Program.Lives.{Ends, SoundChecks, main-Ends}
use cron_mon.Main.Program.Overflow.{main-panics}
use cron_mon.Base.Sorting.{sort_by, insert_by}
use cron_mon.Tests.Fixtures.{backup_id, at}
use cron_mon.Tests.Storing.{one_row, outside}

abbrev no_migrations : Driver Db
no_migrations = record { execute = λ sql db. some db; entries = some []; read_file = λ name. none }

abbrev on_disk : Database Db
on_disk = record { tracking = true; versions = []; schema = one_row; faults = [] }

abbrev one_life : Life
one_life = record {
  opens = true;
  started = at 100;
  signals = eval_tick (at 130) ∷ stop ∷ [];
  others = delivers (at 110) ∷ [];
  turns = true ∷ [];
  serve_error = none;
  clock = at;
}

-- The environment variables, with the interval of the scheduler.
unfoldable variables : String → String → Option Text
variables interval key =
    let key = quoted key in
    if text_eq key (quoted "BASE_URL")
    then some (quoted "https://example.com")
    else if text_eq key (quoted "ADMIN_PASS")
    then some (quoted "secret")
    else if text_eq key (quoted "SCHEDULER_INTERVAL")
    then some (quoted interval)
    else none

-- url.ParseRequestURI on that base URL.
unfoldable parse_base : Text → Option (Text × Text)
parse_base url = some (quoted "https", quoted "example.com")

on_disk-SoundChecks :
    SoundChecks (sqlite_services outside) check_store no_migrations one_life on_disk
unfolding hydrate hydrated list_all exec ordered scan_all scan_check parse_time parse_time_ptr
    check_row put sort_by insert_by format_time instant status_of_text empty_cache open_database get
    load lookup status_text
on_disk-SoundChecks k c = elim (Bool-cases (text_eq backup_id k)) [
  | inl p ↦ rw p (λ e. let same = e in cc)
  | inr p ↦ rw p (λ e. cc)
]

main-Ends_example :
    Ends
      (sqlite_services outside)
      check_store
      one_life
      (main (sqlite_services outside) no_migrations one_life (variables "30") parse_base on_disk)
unfolding Config.load getenv variables text_eq atoi parse_bool
main-Ends_example =
    main-Ends (sqlite_services outside) check_store (leaves outside) no_migrations one_life
      (variables "30") parse_base on_disk (omega arith) on_disk-SoundChecks

main-panics_example :
    main
      (sqlite_services outside)
      no_migrations
      one_life
      (variables "10000000000")
      parse_base
      on_disk
    ≡ panics
unfolding Config.load getenv variables text_eq atoi parse_bool validate parse_base open_database
    hydrate hydrated list_all exec ordered scan_all scan_check parse_time parse_time_ptr check_row
    put sort_by insert_by format_time instant status_of_text empty_cache
main-panics_example =
    main-panics (sqlite_services outside) no_migrations one_life (variables "10000000000")
      parse_base on_disk on_disk 10_000_000_000 refl refl (omega arith) (omega arith) refl refl
