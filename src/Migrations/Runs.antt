-- ===== src/Migrations/Runs.antt =====
-- What a run of Migrate in internal/db/db.go leaves, and what the next run does.
use cron_mon.Base.{
  ◌≡◌, ◌⊎◌, ◌∙◌, sym, ap, refl, inl, inr, Bool, true, Option, none, some, List, [], ◌∷◌, ◌++◌,
  ◌>>=◌, if◌then◌else◌, Bool-cases,
}
use mathlib.Core.List.{append-nil, append_assoc}
use cron_mon.Base.Sorting.{sort_by, IsSortedBy}
use cron_mon.Migrations.Order.{sort_by-by_name}
use cron_mon.Base.Text.{Text}
use cron_mon.Migrations.{
  Entry, Driver, Database, MigrateError, by_name, succeeds, called, migrate_entries, migrate_sorted,
  migrate,
}
use cron_mon.Migrations.Steps.{
  apply_version, needed, Round, passed, applied, gave_up, migrate_entry-Round,
}

module _ {Schema : Type 0} (driver : Driver Schema) where
  -- What migrations make of the schema, one after the other.
  unfoldable pub replay : List Text → Schema → Option Schema
  unfolding apply_version
  replay [] schema = some schema
  replay (v ∷ vs) schema = apply_version driver v schema >>= replay vs

  -- The names of the entries that are to be applied, given the recorded ones.
  unfoldable pub pending : List Text → List Entry → List Text
  pending versions [] = []
  pending versions (e ∷ es) =
      let after = pending (versions ++ e.name ∷ []) es in
      let unchanged = pending versions es in
      if needed driver versions e then e.name ∷ after else unchanged

  -- Some of the pending migrations, from the first on, were applied and recorded, in their order;
  -- all of them if there was no error.
  pub record Ran (es : List Entry) (db : Database Schema)
      (r : Option MigrateError × Database Schema) : Type 0 where
    pub done : List Text
    pub left : List Text
    pub ordered : pending db.versions es ≡ done ++ left
    pub versions : r.1.versions ≡ db.versions ++ done
    pub schema : replay done db.schema ≡ some r.1.schema
    pub outcome : ((r.0 ≡ none) × (left ≡ [])) ⊎ ((error : MigrateError) × (r.0 ≡ some error))

  after_round :
      List Entry → Option MigrateError × Database Schema → Option MigrateError × Database Schema
  after_round es round = elim round.0 [
    | some error ↦ (some error, round.1)
    | none ↦ migrate_entries driver es round.1
  ]

  stopped-Ran :
      (es : List Entry) (db : Database Schema) (faults : List Bool) (error : MigrateError)
      → Ran es db (some error, record db { faults = faults })
  unfolding replay
  stopped-Ran es db faults error = record {
    done = [];
    left = pending db.versions es;
    ordered = refl;
    versions = sym (append-nil db.versions);
    schema = refl;
    outcome = inr (error, refl);
  }

  after_round-Ran :
      (e : Entry) (es : List Entry) (db : Database Schema)
      (round : Option MigrateError × Database Schema)
      → ((db' : Database Schema) → Ran es db' (migrate_entries driver es db'))
      → Round driver e db round
      → Ran (e ∷ es) db (after_round es round)
  unfolding after_round pending replay
  after_round-Ran e es db round later (gave_up error faults) = stopped-Ran (e ∷ es) db faults error
  after_round-Ran e es db round later (passed faults off) =
      let rest = later (record db { faults = faults }) in
      record {
        done = rest.done;
        left = rest.left;
        ordered = rw off rest.ordered;
        versions = rest.versions;
        schema = rest.schema;
        outcome = rest.outcome;
      }
  after_round-Ran e es db round later (applied faults schema' on made) =
      let rest =
        later (record db {
          versions = db.versions ++ e.name ∷ [];
          schema = schema';
          faults = faults;
        }) in
      record {
        done = e.name ∷ rest.done;
        left = rest.left;
        ordered = rw on (ap (λ vs. e.name ∷ vs) rest.ordered);
        versions = rest.versions ∙ append_assoc db.versions (e.name ∷ []) rest.done;
        schema = rw made rest.schema;
        outcome = rest.outcome;
      }

  migrate_entries-Ran :
      (es : List Entry) (db : Database Schema) → Ran es db (migrate_entries driver es db)
  unfolding migrate_entries pending replay after_round
  migrate_entries-Ran [] db = record {
    done = [];
    left = [];
    ordered = refl;
    versions = sym (append-nil db.versions);
    schema = refl;
    outcome = inl (refl, refl);
  }
  migrate_entries-Ran (e ∷ es) db =
      after_round-Ran e es db _ (migrate_entries-Ran es) (migrate_entry-Round driver e db)

  migrate_sorted-Ran :
      (o : Option (List Entry)) (es : List Entry) (db : Database Schema)
      → o ≡ some es
      → Ran (sort_by by_name es) db (migrate_sorted driver o db)
  unfolding migrate_sorted
  migrate_sorted-Ran none es db listed = cc
  migrate_sorted-Ran (some es') es db listed =
      let same : es' ≡ es = cc in rw same (migrate_entries-Ran (sort_by by_name es) db)

  -- A run of Migrate applies the pending migrations in the order of their names: all of them if
  -- it reports no error, and otherwise some of them from the first on. It records exactly those
  -- that it applied, and the schema is what they make of the one before, one after the other,
  -- whichever calls of the driver fail.
  pub migrate-Ran :
      (es : List Entry) (db : Database Schema)
      → driver.entries ≡ some es
      → IsSortedBy by_name (sort_by by_name es) × Ran (sort_by by_name es) db (migrate driver db)
  unfolding migrate
  migrate-Ran es db listed = (
    sort_by-by_name es,
    elim (Bool-cases (succeeds db.faults)) [
      | inr p ↦ rw p (stopped-Ran (sort_by by_name es) db _ _)
      | inl p ↦
          let rest =
            migrate_sorted-Ran driver.entries es (record (called db) { tracking = true }) listed in
          rw p (record {
            done = rest.done;
            left = rest.left;
            ordered = rest.ordered;
            versions = rest.versions;
            schema = rest.schema;
            outcome = rest.outcome;
          })
    ],
  )
