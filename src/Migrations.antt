-- ===== src/Migrations.antt =====
-- internal/db/db.go: opening the database and migrating it. SQLite's execution of a migration's
-- SQL, the embedded files and the failures of the driver are parameters. A transaction that is
-- rolled back or whose commit fails leaves the tables as they were when it began.
pub mod Steps
pub mod Runs
pub mod Again
pub mod Order
use cron_mon.Base.{
  ℕ, ◌≡◌, refl, Bool, true, false, not, ◌&&◌, ◌||◌, Option, none, some, List, [], ◌∷◌, ◌++◌, ◌==◌,
  ltb, if◌then◌else◌,
}
use mathlib.Core.List.{reverse}
use mathlib.Core.Option
use cron_mon.Base.Text.{Text, text_eq, is_empty, quoted, trim_space, has_prefix, split}
use cron_mon.Base.Sorting.{sort_by}
use cron_mon.Base.Order.{text_ltb, text_leb}

-- An entry of the directory of migrations.
pub record Entry : Type 0 where
  pub name : Text
  pub is_dir : Bool

-- SQLite and the embedded files; `Schema` is what the migrations change.
pub record Driver (Schema : Type 0) : Type 0 where
  -- tx.Exec of a migration's SQL; `none` is an error.
  pub execute : Text → Schema → Option Schema
  -- fs.ReadDir and fs.ReadFile
  pub entries : Option (List Entry)
  pub read_file : Text → Option Text

-- The database: the rows of schema_migrations in the order of their insertion, what the migrations
-- made, and which of the next calls of the driver fail.
pub record Database (Schema : Type 0) : Type 0 where
  pub tracking : Bool
  pub versions : List Text
  pub schema : Schema
  pub faults : List Bool

-- Where Migrate gives up.
pub data MigrateError : Type 0 where
  no_tracking no_entries : MigrateError
  not_checked not_read not_begun not_executed not_recorded not_committed : Text → MigrateError

-- Why Open fails.
pub data OpenError : Type 0 where
  not_opened pragma_failed : OpenError
  not_migrated : MigrateError → OpenError

abbrev pub pragmas : List Text
pragmas =
    quoted "PRAGMA journal_mode=WAL"
    ∷ quoted "PRAGMA foreign_keys=ON"
    ∷ quoted "PRAGMA busy_timeout=5000"
    ∷ []

-- strings.HasSuffix
unfoldable pub has_suffix : Text → Text → Bool
unfolding has_prefix
has_suffix s suffix = has_prefix (reverse s) (reverse suffix)

-- isCommentOnly
unfoldable pub comment_line : Text → Bool
unfolding trim_space has_prefix
comment_line line = let t = trim_space line in is_empty t || has_prefix t (quoted "--")

all_comments : List Text → Bool
unfolding comment_line
all_comments [] = true
all_comments (line ∷ lines) = comment_line line && all_comments lines

unfoldable pub is_comment_only : Text → Bool
unfolding all_comments split
is_comment_only s = all_comments (split 10 s)

is_comment_only_test :
    (is_comment_only (quoted "-- a\n\n  -- b") ≡ true)
    × (is_comment_only (quoted "-- a\nDROP TABLE t;") ≡ false)
unfolding is_comment_only
is_comment_only_test = (refl, refl)

-- sort.Slice by the names: what may stand first is not greater.
abbrev pub by_name : Entry → Entry → Bool
by_name a b = text_leb a.name b.name

unfoldable pub is_migration : Entry → Bool
unfolding has_suffix
is_migration e = not (e.is_dir || not (has_suffix e.name (quoted ".sql")))

unfoldable pub recorded : Text → List Text → Bool
unfolding text_eq
recorded v [] = false
recorded v (w ∷ vs) = text_eq w v || recorded v vs

-- The next call of the driver: whether it succeeds.
unfoldable pub succeeds : List Bool → Bool
succeeds [] = true
succeeds (fault ∷ faults) = not fault

unfoldable pub later : List Bool → List Bool
later [] = []
later (fault ∷ faults) = faults

module _ {Schema : Type 0} where
  -- The database after a call that changed nothing.
  abbrev pub called : Database Schema → Database Schema
  called db = record db { faults = later db.faults }

  -- tx.Rollback(): the tables as they were when the transaction began.
  abbrev pub rollback : Database Schema → List Bool → Database Schema
  rollback start faults = record start { faults = faults }

  module _ (driver : Driver Schema) where
    -- The content is executed as one piece.
    unfoldable pub execute_all : Text → Database Schema → Bool × Database Schema
    unfolding succeeds later
    execute_all content tx =
        if not (succeeds tx.faults)
        then (false, called tx)
        else elim (driver.execute content tx.schema) [
          | none ↦ (false, called tx)
          | some schema ↦ (true, record tx { schema = schema; faults = later tx.faults })
        ]

    -- execStatements: whether it succeeds, and the transaction afterwards.
    unfoldable pub exec_statements : Text → Database Schema → Bool × Database Schema
    unfolding execute_all is_comment_only trim_space
    exec_statements content tx =
        let s = trim_space content in
        if is_empty s || is_comment_only s then (true, tx) else execute_all s tx

    -- The row of the migration, and the commit; `start` is where the transaction began.
    unfoldable pub record_version :
        Text → Database Schema → Bool × Database Schema → Option MigrateError × Database Schema
    unfolding succeeds later
    record_version version start (false, tx) =
        (some (not_executed version), rollback start tx.faults)
    record_version version start (true, tx) =
        if not (succeeds tx.faults)
        then (some (not_recorded version), rollback start (later tx.faults))
        else if not (succeeds (later tx.faults))
        then (some (not_committed version), rollback start (later (later tx.faults)))
        else (
          none,
          record tx { versions = tx.versions ++ version ∷ []; faults = later (later tx.faults) },
        )

    -- The transaction of one migration.
    unfoldable pub apply_migration :
        Text → Option Text → Database Schema → Option MigrateError × Database Schema
    unfolding succeeds later exec_statements record_version
    apply_migration version none db = (some (not_read version), db)
    apply_migration version (some content) db =
        if not (succeeds db.faults)
        then (some (not_begun version), called db)
        else record_version version (called db) (exec_statements content (called db))

    -- The body of the loop.
    unfoldable pub migrate_entry : Entry → Database Schema → Option MigrateError × Database Schema
    unfolding is_migration succeeds later recorded apply_migration
    migrate_entry e db =
        if not (is_migration e)
        then (none, db)
        else if not (succeeds db.faults)
        then (some (not_checked e.name), called db)
        else if recorded e.name db.versions
        then (none, called db)
        else apply_migration e.name (driver.read_file e.name) (called db)

    unfoldable pub migrate_entries :
        List Entry → Database Schema → Option MigrateError × Database Schema
    unfolding migrate_entry
    migrate_entries [] db = (none, db)
    migrate_entries (e ∷ es) db =
        let round = migrate_entry e db in
        elim round.0 [ some error ↦ (some error, round.1) | none ↦ migrate_entries es round.1 ]

    migrate_sorted : Option (List Entry) → Database Schema → Option MigrateError × Database Schema
    unfolding sort_by text_ltb migrate_entries
    migrate_sorted none db = (some no_entries, db)
    migrate_sorted (some es) db = migrate_entries (sort_by by_name es) db

    -- Migrate
    unfoldable pub migrate : Database Schema → Option MigrateError × Database Schema
    unfolding succeeds later migrate_sorted
    migrate db =
        if not (succeeds db.faults)
        then (some no_tracking, called db)
        else migrate_sorted driver.entries (record (called db) { tracking = true })

    -- The three PRAGMA statements of Open.
    run_pragmas : List Text → Database Schema → Bool × Database Schema
    unfolding succeeds later
    run_pragmas [] db = (true, db)
    run_pragmas (p ∷ ps) db =
        let rest = run_pragmas ps (called db) in
        if succeeds db.faults then rest else (false, called db)

    finish_open : Bool × Database Schema → Option OpenError × Database Schema
    unfolding migrate
    finish_open (false, db) = (some pragma_failed, db)
    finish_open (true, db) = let (error, db') = migrate db in (Option.map not_migrated error, db')

    -- Open, given whether sql.Open succeeds; the database is closed after an error.
    unfoldable pub open_database : Bool → Database Schema → Option OpenError × Database Schema
    unfolding run_pragmas finish_open
    open_database false db = (some not_opened, db)
    open_database true db = finish_open (run_pragmas pragmas db)
