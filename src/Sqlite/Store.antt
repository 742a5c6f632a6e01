-- ===== src/Sqlite/Store.antt =====
-- The check repository of internal/repository/check_repo.go as a store that the cache can rely on.
use mathlib.Core.Option
use mathlib.Core.List.{foldl}
use cron_mon.Base.{
  Error, ◌≡◌, refl, ap, ◌∙◌, inl, inr, ◌&&◌, not, Option, none, some, is_some, List, [], ◌∷◌, map,
  ok, failed, if◌then◌else◌, Bool-cases, Option-cases,
}
use cron_mon.Base.Text.{Text, text_eq, text_eq_iff}
use cron_mon.Model.{Check}
use cron_mon.Cache.{store, load}
use cron_mon.Cache.Coherence.{Rows, Writes, succeeded, failed, CheckStore}
use cron_mon.Table.{Table, lookup, put, remove}
use cron_mon.Table.Laws.{Absent, Distinct, lookup-Absent, lookup-put, lookup-remove}
use cron_mon.Sqlite.{CheckRow, Db, exec, instant, next_fault, executed, format_time}
use cron_mon.Sqlite.Checks.{
  check_row, row_allowed, create, update, delete, delete_row, ordered, list_all, scan_all,
  check_repository,
}
use cron_mon.Table.Sorting.{Distinct-sort_by, lookup-sort_by}
use cron_mon.Sqlite.Reading.{read, stored, stored-read, scan_all-read}

-- The rows of `checks` as checks.
abbrev pub rows : Db → Rows
rows db k = Option.map (read k) (lookup k db.checks)

rows-put :
    (c : Check) (row : CheckRow) (m : Table CheckRow) (k : Text)
    → read c.id row ≡ stored c
    → Option.map (read k) (lookup k (put c.id row m))
      ≡ (if text_eq c.id k then some (stored c) else Option.map (read k) (lookup k m))
rows-put c row m k e = elim (Bool-cases (text_eq c.id k)) [
  | inl same ↦
      let key : c.id ≡ k = (text_eq_iff c.id k).0 same in
      rw (lookup-put c.id k row m, same) (cc (e, key))
  | inr other ↦ rw (lookup-put c.id k row m, other) refl
]

-- Create adds the check as it reads back, or returns an error and leaves the rows as they were.
pub create-Writes :
    (c : Check) (db : Db)
    → Writes
        (create c db).0
        (rows db)
        (rows (create c db).1)
        (λ k. if text_eq c.id k then some (stored c) else rows db k)
unfolding create exec stored
create-Writes c db = elim (Bool-cases (next_fault db.faults)) [
  | inl p ↦ rw p (failed Error.failed refl (λ k. refl))
  | inr p ↦
      rw p
        (elim (Bool-cases
          (not (is_some (lookup c.id db.checks)) && row_allowed c.id (check_row c) (executed db))) [
            | inl q ↦ rw q (succeeded tt refl (λ k. rows-put c (check_row c) db.checks k refl))
            | inr q ↦ rw q (failed Error.failed refl (λ k. refl))
          ])
]

-- What Update writes reads back as the check, if the creation time is the row's.
read-updated :
    (c : Check) (old : CheckRow)
    → (stored c).created_at ≡ (read c.id old).created_at
    → read c.id (record (check_row c) { created_at = old.created_at }) ≡ stored c
unfolding stored read
read-updated c old e = cc e

-- Update replaces the row of a check by the check as it reads back, or returns an error and leaves
-- the rows as they were, for a check that has the creation time of the row, if there is one.
pub update-Writes :
    (c : Check) (db : Db)
    → ((old : Check) → rows db c.id ≡ some old → (stored c).created_at ≡ old.created_at)
    → Writes
        (update c db).0
        (rows db)
        (rows (update c db).1)
        (λ k. if text_eq c.id k then some (stored c) else rows db k)
unfolding update exec
update-Writes c db keeps = elim (Bool-cases (next_fault db.faults)) [
  | inl p ↦ rw p (failed Error.failed refl (λ k. refl))
  | inr p ↦ rw p (elim (Option-cases (lookup c.id db.checks)) [
    | inl q ↦ rw q (failed Error.not_found refl (λ k. refl))
    | inr (old, q) ↦ rw q (elim (Bool-cases (row_allowed c.id (check_row c) (executed db))) [
      | inl r ↦ rw r (
          succeeded tt refl (λ k.
            rows-put c (record (check_row c) { created_at = old.created_at }) db.checks k
              (read-updated c old (keeps (read c.id old) (ap (Option.map (read c.id)) q)))))
      | inr r ↦ rw r (failed Error.failed refl (λ k. refl))
    ])
  ])
]

rows-remove :
    (id : Text) (m : Table CheckRow) (k : Text)
    → Distinct m
    → Option.map (read k) (lookup k (remove id m))
      ≡ (if text_eq id k then none else Option.map (read k) (lookup k m))
rows-remove id m k d = elim (Bool-cases (text_eq id k)) [
  | inl same ↦ rw (lookup-remove id k m d, same) refl
  | inr other ↦ rw (lookup-remove id k m d, other) refl
]

-- Delete removes the row of the ID and no other, or returns an error and leaves the rows.
pub delete-Writes :
    (id : Text) (db : Db)
    → Writes
        (delete id db).0
        (rows db)
        (rows (delete id db).1)
        (λ k. if text_eq id k then none else rows db k)
unfolding delete exec delete_row
delete-Writes id db = elim (Bool-cases (next_fault db.faults)) [
  | inl p ↦ rw p (failed Error.failed refl (λ k. refl))
  | inr p ↦ rw p (elim (Bool-cases (is_some (lookup id db.checks))) [
    | inl q ↦ rw q (succeeded tt refl (λ k. rows-remove id db.checks k db.checks_distinct))
    | inr q ↦ rw q (failed Error.not_found refl (λ k. refl))
  ])
]

pub rows-list_all : (db : Db) (k : Text) → rows (list_all db).1 k ≡ rows db k
unfolding list_all exec
rows-list_all db k = elim (Bool-cases (next_fault db.faults)) [
  | inl p ↦ rw p refl
  | inr p ↦ rw p refl
]

or_rest : Text → Option Check → Option CheckRow → Option Check
or_rest k rest none = rest
or_rest k rest (some row) = some (read k row)

lookup-loaded :
    (i k : Text) (row : CheckRow) (acc : Table Check)
    → lookup k (store acc (read i row)) ≡ (if text_eq i k then some (read i row) else lookup k acc)
unfolding read
lookup-loaded i k row acc = lookup-put i k (read i row) acc

-- Loading the checks of a table finds each row's check under its key.
stored-loaded :
    (k : Text) (m : Table CheckRow) (acc : Table Check)
    → Distinct m
    → Option.map stored (lookup k (foldl store acc (map (λ e. read e.0 e.1) m)))
      ≡ or_rest k (Option.map stored (lookup k acc)) (lookup k m)
unfolding lookup or_rest
stored-loaded k [] acc d = refl
stored-loaded k ((i, row) ∷ m) acc d =
    stored-loaded k m (store acc (read i row)) d.1 ∙ elim (Bool-cases (text_eq i k)) [
      | inl same ↦
          let key : i ≡ k = (text_eq_iff i k).0 same in
          let gone : Absent k m = rw (← key) d.0 in
          let again : some (stored (read i row)) ≡ some (read k row) =
            cc (stored-read i row, key) in
          rw (lookup-loaded i k row acc, same, lookup-Absent k m gone) again
      | inr other ↦ rw (lookup-loaded i k row acc, other) refl
    ]

from_none : (k : Text) (o : Option CheckRow) → or_rest k none o ≡ Option.map (read k) o
unfolding or_rest
from_none k none = refl
from_none k (some row) = refl

-- If ListAll returns no error, loading what it returns finds under each ID the check of the row of
-- that ID, and none where there is no row.
pub list_all-stored :
    (db : Db) (cs : List Check)
    → (list_all db).0 ≡ ok cs
    → (k : Text) → Option.map stored (lookup k (load cs)) ≡ rows db k
unfolding list_all exec load ordered lookup
list_all-stored db cs h k = elim (Bool-cases (next_fault db.faults)) [
  | inl p ↦ cc (rw p at h)
  | inr p ↦
      let scanned : scan_all (ordered db.checks) ≡ ok cs = rw p at h in
      let loaded =
        stored-loaded k (ordered db.checks) [] (Distinct-sort_by _ db.checks db.checks_distinct) in
      rw (scan_all-read (ordered db.checks) cs scanned) (
        loaded
        ∙ from_none k _
        ∙ ap (Option.map (read k)) (lookup-sort_by _ k db.checks db.checks_distinct))
]

pub created_at-stored :
    (c d : Check) → c.created_at ≡ d.created_at → (stored c).created_at ≡ (stored d).created_at
unfolding stored read check_row
created_at-stored c d e = ap (λ t. instant (format_time t)) e

-- The SQLite repository as the store of a cache.
abbrev pub check_store : CheckStore check_repository
check_store = record {
  rows = rows;
  stored = stored;
  stored_created = created_at-stored;
  creates = create-Writes;
  updates = update-Writes;
  deletes = delete-Writes;
  reads = rows-list_all;
  lists = list_all-stored;
}
