-- ===== src/Tests/Migrating.antt =====
-- The theorems on internal/db/db.go at concrete inputs.
use cron_mon.Base.{◌≡◌, refl, true, false, some, List, [], ◌∷◌, ◌++◌, All}
use cron_mon.Base.Text.{Text, quoted}
use cron_mon.Base.Sorting.{sort_by, IsSortedBy}
use cron_mon.Migrations.{Entry, Driver, Database, by_name, migrate}
use cron_mon.Migrations.Steps.{needed}
use cron_mon.Migrations.Runs.{Ran, migrate-Ran}
use cron_mon.Migrations.Again.{migrate-migrate}

abbrev files : List Entry
files =
    record { name = quoted "002_tags.sql"; is_dir = false }
    ∷ record { name = quoted "001_initial.sql"; is_dir = false }
    ∷ record { name = quoted "README.md"; is_dir = false }
    ∷ []

-- The schema is the list of the statements that were executed.
abbrev statements : Driver (List Text)
statements = record {
  execute = λ sql schema. some (schema ++ sql ∷ []);
  entries = some files;
  read_file = λ name. some (quoted "CREATE TABLE t (id TEXT);");
}

abbrev fresh : Database (List Text)
fresh = record { tracking = false; versions = []; schema = []; faults = [] }

migrate-Ran_example :
    IsSortedBy by_name (sort_by by_name files)
    × Ran statements (sort_by by_name files) fresh (migrate statements fresh)
migrate-Ran_example = migrate-Ran statements files fresh refl

migrate-migrate_example :
    let db' = record (migrate statements fresh).1 { faults = true ∷ [] } in
    All (λ e. needed statements db'.versions e ≡ false) (sort_by by_name files)
    × ((migrate statements db').1.versions ≡ db'.versions)
    × ((migrate statements db').1.schema ≡ db'.schema)
unfolding migrate
migrate-migrate_example = migrate-migrate statements files fresh (true ∷ []) refl refl
