-- ===== src/Migrations/Steps.antt =====
-- One round of the loop of Migrate in internal/db/db.go.
use cron_mon.Base.{
  ◌≡◌, ◌⊎◌, refl, inl, inr, Bool, true, false, not, ◌&&◌, ◌||◌, Option, none, some, List, [], ◌∷◌,
  ◌++◌, ◌>>=◌, arith, if◌then◌else◌, Bool-cases, Option-cases,
}
use cron_mon.Base.Text.{Text, is_empty, trim_space}
use cron_mon.Migrations.{
  Entry, Driver, Database, MigrateError, is_migration, is_comment_only, recorded, succeeds, later,
  execute_all, exec_statements, record_version, apply_migration, migrate_entry,
}

module _ {Schema : Type 0} (driver : Driver Schema) where
  -- What the migration makes of the schema, if all goes well.
  unfoldable pub apply_content : Text → Schema → Option Schema
  unfolding trim_space is_comment_only
  apply_content content schema =
      let s = trim_space content in
      if is_empty s || is_comment_only s then some schema else driver.execute s schema

  unfoldable pub apply_version : Text → Schema → Option Schema
  unfolding apply_content
  apply_version version schema =
      driver.read_file version >>= λ content. apply_content content schema

  -- Whether an entry is still to be applied.
  abbrev pub needed : List Text → Entry → Bool
  needed versions e = is_migration e && not (recorded e.name versions)

  -- How a round ends: it has passed an entry over, or applied its migration and recorded it, or
  -- failed and left both tables.
  pub data Round (e : Entry) (db : Database Schema)
      : Option MigrateError × Database Schema → Type 0 where
    passed :
        (faults : List Bool)
        → needed db.versions e ≡ false
        → Round e db (none, record db { faults = faults })
    applied :
        (faults : List Bool) (schema : Schema)
        → needed db.versions e ≡ true
        → apply_version e.name db.schema ≡ some schema
        → Round e db (
          none,
          record db { versions = db.versions ++ e.name ∷ []; schema = schema; faults = faults },
        )
    gave_up :
        (error : MigrateError) (faults : List Bool)
        → Round e db (some error, record db { faults = faults })

  -- The transaction after the SQL: as it was, or with the schema that the SQL makes.
  Executed : Text → Database Schema → Bool × Database Schema → Type 0
  Executed content tx r =
      ((faults : List Bool) × (r ≡ (false, record tx { faults = faults })))
      ⊎ ((faults : List Bool) × (schema : Schema) × (apply_content content tx.schema ≡ some schema)
          × (r ≡ (true, record tx { schema = schema; faults = faults })))

  exec_statements-Executed :
      (content : Text) (tx : Database Schema)
      → Executed content tx (exec_statements driver content tx)
  unfolding exec_statements execute_all apply_content Executed
  exec_statements-Executed content tx =
      let s = trim_space content in
      elim (Bool-cases (is_empty s || is_comment_only s)) [
        | inl p ↦ rw p (inr (tx.faults, tx.schema, refl, refl))
        | inr p ↦ elim (Bool-cases (succeeds tx.faults)) [
          | inr q ↦ rw (p, q) (inl (later tx.faults, refl))
          | inl q ↦ elim (Option-cases (driver.execute s tx.schema)) [
            | inl x ↦ rw (p, q, x) (inl (later tx.faults, refl))
            | inr (schema, x) ↦ rw (p, q, x) (inr (later tx.faults, schema, refl, refl))
          ]
        ]
      ]

  record_version-Round :
      (e : Entry) (content : Text) (db : Database Schema) (faults : List Bool)
      (r : Bool × Database Schema)
      → needed db.versions e ≡ true
      → driver.read_file e.name ≡ some content
      → Executed content (record db { faults = faults }) r
      → Round e db (record_version driver e.name (record db { faults = faults }) r)
  unfolding record_version Executed apply_version
  record_version-Round e content db faults r need read (inl (after, x)) =
      rw x (Round.gave_up _ after)
  record_version-Round e content db faults r need read (inr (after, schema, done, x)) =
      rw x (elim (Bool-cases (succeeds after)) [
        | inr p ↦ rw p (Round.gave_up _ _)
        | inl p ↦ elim (Bool-cases (succeeds (later after))) [
          | inr q ↦ rw (p, q) (Round.gave_up _ _)
          | inl q ↦ rw (p, q) (Round.applied _ schema need (rw read done))
        ]
      ])

  pub migrate_entry-Round :
      (e : Entry) (db : Database Schema) → Round e db (migrate_entry driver e db)
  unfolding migrate_entry apply_migration
  migrate_entry-Round e db = elim (Bool-cases (is_migration e)) [
    | inr p ↦ rw p (Round.passed db.faults (ground arith))
    | inl p ↦ elim (Bool-cases (succeeds db.faults)) [
      | inr q ↦ rw (p, q) (Round.gave_up _ _)
      | inl q ↦ elim (Bool-cases (recorded e.name db.versions)) [
        | inl r ↦ rw (p, q, r) (Round.passed _ (ground arith))
        | inr r ↦ elim (Option-cases (driver.read_file e.name)) [
          | inl x ↦ rw (p, q, r, x) (Round.gave_up _ _)
          | inr (content, x) ↦ elim (Bool-cases (succeeds (later db.faults))) [
            | inr y ↦ rw (p, q, r, x, y) (Round.gave_up _ _)
            | inl y ↦
                rw (p, q, r, x, y)
                  (record_version-Round e content db (later (later db.faults)) _ (ground arith) x
                    (exec_statements-Executed content _))
          ]
        ]
      ]
    ]
  ]
