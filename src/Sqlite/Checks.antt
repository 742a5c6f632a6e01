-- ===== src/Sqlite/Checks.antt =====
-- internal/repository/check_repo.go
use cron_mon.Base.{
  ℕ, Bool, false, ◌&&◌, ◌||◌, not, Option, none, some, is_some, List, [], ◌∷◌, Result, ok, err,
  failed, not_found, if◌then◌else◌, ◌==◌,
}
use mathlib.Core.Option
use cron_mon.Base.Sorting.{sort_by}
use cron_mon.Base.Int.{ltb_ℤ}
use cron_mon.Base.Text.{Text, text_eq, quoted}
use cron_mon.Model.{Check, status_text}
use cron_mon.Repository.{CheckRepository}
use cron_mon.Table.{Table, lookup, put, remove}
use cron_mon.Table.Laws.{Distinct-put, Distinct-remove}
use cron_mon.Sqlite.{
  CheckRow, Db, PingRow, NotificationRow, exec, format_time, parse_time, parse_time_ptr,
  status_of_text, ◌>>=◌,
}

-- The columns that Create and Update write: stringPtrToNull, statusPtrToNull, formatTimePtr.
unfoldable pub check_row : Check → CheckRow
check_row c = record {
  name = c.name;
  slug = c.slug;
  schedule = c.schedule;
  grace = c.grace;
  status = status_text c.status;
  pre_pause_status = Option.map status_text c.pre_pause_status;
  last_ping_at = Option.map format_time c.last_ping_at;
  next_expected_at = Option.map format_time c.next_expected_at;
  created_at = format_time c.created_at;
  updated_at = format_time c.updated_at;
  tags = c.tags;
  notify_on_fail = if c.notify_on_fail then 1 else 0;
}

-- scanCheck, of a row and its key.
unfoldable pub scan_check : Text × CheckRow → Result Check
scan_check (id, row) = do
  created ← parse_time row.created_at
  updated ← parse_time row.updated_at
  last ← parse_time_ptr row.last_ping_at
  next ← parse_time_ptr row.next_expected_at
  ok (record {
    id = id;
    name = row.name;
    slug = row.slug;
    schedule = row.schedule;
    grace = row.grace;
    status = status_of_text row.status;
    pre_pause_status = Option.map status_of_text row.pre_pause_status;
    last_ping_at = last;
    next_expected_at = next;
    created_at = created;
    updated_at = updated;
    tags = row.tags;
    notify_on_fail = not (row.notify_on_fail == 0);
  })

-- CHECK(status IN ('new','up','down','paused'))
status_allowed : Text → Bool
status_allowed s =
    text_eq s (quoted "new")
    || text_eq s (quoted "up")
    || text_eq s (quoted "down")
    || text_eq s (quoted "paused")

same_slug : Option Text → Option Text → Bool
same_slug (some s) (some t) = text_eq s t
same_slug _ _ = false

-- slug UNIQUE: another row has the slug. NULLs are never equal.
slug_taken : Text → Option Text → Table CheckRow → Bool
slug_taken id slug [] = false
slug_taken id slug ((j, row) ∷ m) =
    not (text_eq j id) && same_slug row.slug slug || slug_taken id slug m

-- The constraints of the table, but for the primary key.
unfoldable pub row_allowed : Text → CheckRow → Db → Bool
unfolding status_allowed same_slug slug_taken
row_allowed id row db = status_allowed row.status && not (slug_taken id row.slug db.checks)

-- A row that is written under its key.
abbrev pub put_row : Text → CheckRow → Db → Db
put_row id row db = record db {
  checks = put id row db.checks;
  checks_distinct = Distinct-put id row db.checks db.checks_distinct;
}

insert_statement : Check → Db → Result (Unit {0}) × Db
insert_statement c db =
    if not (is_some (lookup c.id db.checks)) && row_allowed c.id (check_row c) db
    then (ok tt, put_row c.id (check_row c) db)
    else (err failed, db)

unfoldable pub create : Check → Db → Result (Unit {0}) × Db
unfolding exec insert_statement
create c = exec (insert_statement c)

-- `created_at` is never written again.
abbrev updated_row : CheckRow → Check → CheckRow
updated_row old c = record (check_row c) { created_at = old.created_at }

update_found : Check → Option CheckRow → Db → Result (Unit {0}) × Db
update_found c none db = (err not_found, db)
update_found c (some old) db =
    if row_allowed c.id (check_row c) db
    then (ok tt, put_row c.id (updated_row old c) db)
    else (err failed, db)

unfoldable pub update : Check → Db → Result (Unit {0}) × Db
unfolding exec update_found
update c = exec (λ db. update_found c (lookup c.id db.checks) db)

-- Other tables, without the rows of a check: ON DELETE CASCADE.
unfoldable pub keep_pings : Text → List PingRow → List PingRow
keep_pings id [] = []
keep_pings id (p ∷ ps) =
    let rest = keep_pings id ps in if text_eq p.check_id id then rest else p ∷ rest

unfoldable pub keep_links : Text → List (Text × ℕ) → List (Text × ℕ)
keep_links id [] = []
keep_links id ((j, ch) ∷ l) =
    let rest = keep_links id l in if text_eq j id then rest else (j, ch) ∷ rest

unfoldable pub keep_notifications : Text → List NotificationRow → List NotificationRow
keep_notifications id [] = []
keep_notifications id (n ∷ ns) =
    let rest = keep_notifications id ns in if text_eq n.check_id id then rest else n ∷ rest

unfoldable pub delete_row : Text → Db → Db
unfolding keep_pings keep_links keep_notifications
delete_row id db = record db {
  checks = remove id db.checks;
  checks_distinct = Distinct-remove id db.checks db.checks_distinct;
  ping_rows = keep_pings id db.ping_rows;
  check_channels = keep_links id db.check_channels;
  notifications = keep_notifications id db.notifications;
}

unfoldable pub delete_statement : Text → Db → Result (Unit {0}) × Db
unfolding delete_row lookup
delete_statement id db =
    if is_some (lookup id db.checks) then (ok tt, delete_row id db) else (err not_found, db)

unfoldable pub delete : Text → Db → Result (Unit {0}) × Db
unfolding exec delete_statement delete_row
delete id = exec (delete_statement id)

found_row : Text → Option CheckRow → Result Check
found_row id none = err not_found
found_row id (some row) = scan_check (id, row)

-- GetByID, and GetByUUID, which is the same query.
unfoldable pub get_by_id : Text → Db → Result Check × Db
unfolding exec found_row
get_by_id id = exec (λ db. (found_row id (lookup id db.checks), db))

created_before : Text × CheckRow → Text × CheckRow → Bool
created_before a b = not (ltb_ℤ b.1.created_at a.1.created_at)

-- The rows in the order of ListAll: ORDER BY created_at ASC.
unfoldable pub ordered : Table CheckRow → Table CheckRow
unfolding created_before
ordered = sort_by created_before

-- The loop over the rows, which stops at the first that does not scan.
unfoldable pub scan_all : Table CheckRow → Result (List Check)
scan_all [] = ok []
scan_all (e ∷ m) = do c ← scan_check e; cs ← scan_all m; ok (c ∷ cs)

unfoldable pub list_all : Db → Result (List Check) × Db
unfolding exec ordered scan_all
list_all = exec (λ db. (scan_all (ordered db.checks), db))

abbrev pub check_repository : CheckRepository Db
check_repository = record {
  create = create;
  get_by_id = get_by_id;
  list_all = list_all;
  update = update;
  delete = delete;
}
