-- ===== src/Sqlite/Pings.antt =====
-- internal/repository/ping_repo.go
use cron_mon.Base.{
  ℕ, suc, Bool, false, ◌&&◌, ◌||◌, not, is_some, List, [], ◌∷◌, ◌++◌, take, Result, ok, err, failed,
  leb, ◌==◌, if◌then◌else◌,
}
use cron_mon.Base.Int.{ltb_ℤ}
use cron_mon.Base.Sorting.{sort_by}
use cron_mon.Base.Text.{Text, text_eq}
use cron_mon.Model.{Ping}
use cron_mon.Repository.{PingRepository}
use cron_mon.Table.{lookup}
use cron_mon.Sqlite.{PingRow, Db, exec, format_time, parse_time, ◌>>=◌}

-- scanPing
unfoldable pub scan_ping : PingRow → Result Ping
unfolding parse_time
scan_ping row = do
  created ← parse_time row.created_at
  ok (record {
    id = row.id;
    check_id = row.check_id;
    type = row.type;
    created_at = created;
    source_ip = row.source_ip;
  })

insert_row : Ping → Db → Db
insert_row p db =
    let row : PingRow = record {
      id = db.next_ping;
      check_id = p.check_id;
      type = p.type;
      created_at = format_time p.created_at;
      source_ip = p.source_ip;
    } in
    record db { ping_rows = db.ping_rows ++ row ∷ []; next_ping = suc db.next_ping }

-- Create. The check must be there: REFERENCES checks(id).
unfoldable pub create : Ping → Db → Result (Unit {0}) × Db
unfolding exec insert_row
create p = exec (λ db.
    if is_some (lookup p.check_id db.checks) then (ok tt, insert_row p db) else (err failed, db))

-- WHERE check_id = ?
unfoldable pub rows_of : Text → List PingRow → List PingRow
rows_of id [] = []
rows_of id (p ∷ ps) = let rest = rows_of id ps in if text_eq p.check_id id then p ∷ rest else rest

-- ORDER BY created_at DESC, id DESC
abbrev pub newer : PingRow → PingRow → Bool
newer a b =
    ltb_ℤ b.created_at a.created_at || (not (ltb_ℤ a.created_at b.created_at) && leb b.id a.id)

unfoldable pub newest : Text → List PingRow → List PingRow
unfolding sort_by rows_of
newest id ps = sort_by newer (rows_of id ps)

unfoldable pub scan_pings : List PingRow → Result (List Ping)
unfolding scan_ping
scan_pings [] = ok []
scan_pings (row ∷ rows) = do p ← scan_ping row; ps ← scan_pings rows; ok (p ∷ ps)

-- ListByCheckID
unfoldable pub list_by_check_id : Text → ℕ → Db → Result (List Ping) × Db
unfolding exec newest scan_pings
list_by_check_id id limit = exec (λ db. (scan_pings (take limit (newest id db.ping_rows)), db))

-- id IN (the rows of the subquery)
unfoldable pub among : ℕ → List PingRow → Bool
among n [] = false
among n (p ∷ ps) = n == p.id || among n ps

-- The rows that the DELETE leaves.
unfoldable pub left_over : Text → List PingRow → List PingRow → List PingRow
unfolding among
left_over id kept [] = []
left_over id kept (p ∷ ps) =
    let rest = left_over id kept ps in
    if text_eq p.check_id id && not (among p.id kept) then rest else p ∷ rest

unfoldable pub pruned : Text → ℕ → List PingRow → List PingRow
unfolding left_over newest
pruned id keep_n ps = left_over id (take keep_n (newest id ps)) ps

-- DeleteOldest
unfoldable pub delete_oldest : Text → ℕ → Db → Result (Unit {0}) × Db
unfolding exec pruned
delete_oldest id keep_n =
    exec (λ db. (ok tt, record db { ping_rows = pruned id keep_n db.ping_rows }))

abbrev pub ping_repository : PingRepository Db
ping_repository = record {
  create = create;
  list_by_check_id = list_by_check_id;
  delete_oldest = delete_oldest;
}
