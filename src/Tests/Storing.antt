-- ===== src/Tests/Storing.antt =====
-- The theorems on internal/cache, internal/repository and the whole program at concrete inputs.
use mathlib.Core.Option
use cron_mon.Base.{ℕ, ◌*◌, ◌≡◌, refl, false, none, some, List, [], ◌∷◌, take, arith, if◌then◌else◌}
use cron_mon.Base.Int.{pos}
use cron_mon.Base.Text.{text_eq, quoted}
use cron_mon.Model.{Check, PingType, status_text}
use cron_mon.Table.{lookup, put}
use cron_mon.Cache
use cron_mon.Cache.{hydrated, StateCache, empty_cache, hydrate, set, get, load}
use cron_mon.Cache.Coherence.{Coherent, Writes, create-Coherent}
use cron_mon.Cache.Restart.{hydrate-empty_cache}
use cron_mon.Alerts.{make_alert_channel}
use cron_mon.World.{World}
use cron_mon.Http.{Request}
use cron_mon.Sqlite.{
  Db, PingRow, exec, format_time, parse_time, parse_time_ptr, status_of_text, instant,
}
use cron_mon.Sqlite.Checks
use cron_mon.Sqlite.Checks.{
  check_repository, check_row, put_row, row_allowed, list_all, ordered, scan_all, scan_check,
}
use cron_mon.Sqlite.Reading.{read, stored}
use cron_mon.Sqlite.Store.{check_store, rows, update-Writes, list_all-stored}
use cron_mon.Sqlite.Pings.{newest, pruned}
use cron_mon.Sqlite.Retention.{newest-pruned}
use cron_mon.System.{Event, pings, evaluates, cleans, creates, pauses, shows, delivers, run}
use cron_mon.System.Invariant.{Inv}
use cron_mon.System.Sqlite.{Outside, sqlite_services, leaves, run-Inv-sqlite}
use cron_mon.System.Interleaved.{Move, whole, reads, writes, ping, moves}
use cron_mon.System.Interleaved.Moves.{Sound, moves-Sound}
use cron_mon.Base.Sorting.{sort_by, insert_by}
use cron_mon.Tests.Fixtures.{
  any_library, every_minute, two_expressions, backup_id, backup, at, empty_db, ping_request,
}

same_creation : (c d : Check) → some c ≡ some d → c.created_at ≡ d.created_at
same_creation c d e = cc e

-- The database that holds the check.
abbrev pub one_row : Db
one_row = put_row backup_id (check_row (backup none)) empty_db

-- The cache after that check was created.
abbrev one_check : StateCache Db
one_check = (Cache.create check_repository (backup none) (empty_cache check_repository empty_db)).1

one_check-Coherent : Coherent check_store one_check
unfolding get lookup empty_cache
one_check-Coherent =
    create-Coherent check_store (backup none) (empty_cache check_repository empty_db) (λ k. refl)

abbrev stale : StateCache Db
stale = record { checks = []; db = one_row }

hydrate-empty_cache_example :
    Option.map stored
      (get backup_id (hydrate check_repository (empty_cache check_repository one_check.db)).1)
    ≡ Option.map stored (get backup_id one_check)
unfolding hydrate hydrated list_all exec ordered scan_all scan_check parse_time parse_time_ptr
    check_row put sort_by insert_by format_time instant status_of_text Cache.create Checks.create
    row_allowed status_text empty_cache lookup text_eq
hydrate-empty_cache_example =
    hydrate-empty_cache check_store one_check one_check-Coherent refl backup_id

update-Writes_example :
    Writes
      (Checks.update (backup (some (at 60))) one_row).0
      (rows one_row)
      (rows (Checks.update (backup (some (at 60))) one_row).1)
      (λ k. if text_eq backup_id k then some (stored (backup (some (at 60)))) else rows one_row k)
unfolding lookup put text_eq stored read check_row instant format_time
update-Writes_example =
    update-Writes (backup (some (at 60))) one_row
      (λ old e. same_creation (stored (backup none)) old e)

list_all-stored_example :
    Option.map stored (lookup backup_id (load (read backup_id (check_row (backup none)) ∷ [])))
    ≡ rows one_row backup_id
unfolding list_all exec ordered scan_all scan_check parse_time parse_time_ptr check_row put sort_by
    insert_by format_time instant status_of_text read status_text
list_all-stored_example =
    list_all-stored one_row (read backup_id (check_row (backup none)) ∷ []) refl backup_id

abbrev ping_row : ℕ → PingRow
ping_row n = record {
  id = n;
  check_id = backup_id;
  type = PingType.success;
  created_at = pos (60 * n);
  source_ip = [];
}

abbrev three_pings : List PingRow
three_pings = ping_row 1 ∷ ping_row 2 ∷ ping_row 3 ∷ []

newest-pruned_example :
    (newest backup_id (pruned backup_id 2 three_pings) ≡ take 2 (newest backup_id three_pings))
    × (newest [] (pruned backup_id 2 three_pings) ≡ newest [] three_pings)
unfolding text_eq
newest-pruned_example =
    newest-pruned backup_id [] 2 three_pings ((refl, (refl, tt)), ((refl, tt), (tt, tt))) refl

abbrev first_world : World Db
first_world = record { cache = empty_cache check_repository empty_db; alerts = make_alert_channel }

abbrev pub outside : Outside
outside = record {
  cron = two_expressions;
  trusted_proxy = false;
  lib = any_library;
  rfc3339 = λ t. quoted "1970-01-01T00:01:40Z";
  base_url = quoted "https://example.com";
  notifiers = λ now. [];
  no_notifier = λ type. type;
}

first_world-Inv : Inv (sqlite_services outside) check_store first_world
unfolding get lookup empty_cache
first_world-Inv = record {
  keyed = record { keyed = tt; distinct = tt };
  coherent = λ k. refl;
  fits = omega arith;
  sound = λ k c e. cc e;
}

abbrev new_check_form : Request
new_check_form = record ping_request {
  body =
      (quoted "name", quoted "backup")
      ∷ (quoted "schedule", every_minute)
      ∷ (quoted "grace", quoted "5")
      ∷ [];
  body_bytes = 45;
}

abbrev a_day : List Event
a_day =
    creates backup_id (at 30) new_check_form
    ∷ pings backup_id PingType.success (at 100) ping_request
    ∷ evaluates (at 1000)
    ∷ delivers (at 1001)
    ∷ shows backup_id
    ∷ pauses backup_id (at 1002)
    ∷ cleans
    ∷ []

run-Inv-sqlite_example :
    Inv (sqlite_services outside) check_store (run (sqlite_services outside) a_day first_world)
run-Inv-sqlite_example = run-Inv-sqlite outside a_day first_world first_world-Inv

-- A ping reads its check, and a pass of the scheduler runs before it writes.
abbrev overlapping : List Move
overlapping =
    whole (creates backup_id (at 30) new_check_form)
    ∷ reads (ping backup_id PingType.success (at 1000) ping_request)
    ∷ whole (evaluates (at 1000))
    ∷ writes 0
    ∷ []

moves-Sound_example :
    Sound
      (sqlite_services outside)
      check_store
      (leaves outside)
      (λ id. at 30)
      (moves (sqlite_services outside) overlapping (record { world = first_world; pending = [] }))
unfolding get lookup empty_cache
moves-Sound_example =
    moves-Sound (sqlite_services outside) check_store (leaves outside) (λ id. at 30) overlapping
      (record { world = first_world; pending = [] }) (refl, (tt, (tt, (tt, tt))))
      (record { good = record { inv = first_world-Inv; births = λ k c e. cc e }; readable = tt })
