-- ===== src/Sqlite/Cascade.antt =====
-- What Delete of internal/repository/check_repo.go takes along: ON DELETE CASCADE.
use cron_mon.Base.{ℕ, ◌≡◌, refl, true, false, is_some, List, [], ◌∷◌, arith, if◌then◌else◌}
use cron_mon.Base.Text.{Text, text_eq, text_eq_iff}
use cron_mon.Table.{lookup}
use cron_mon.Sqlite.{Db, PingRow, exec}
use cron_mon.Sqlite.Checks.{keep_pings, keep_links, delete_row, delete_statement, delete}
use cron_mon.Sqlite.Pings.{rows_of}
use cron_mon.Sqlite.Channels.{linked}

rows_of-keep_pings : (id : Text) (ps : List PingRow) → rows_of id (keep_pings id ps) ≡ []
unfolding rows_of keep_pings
rows_of-keep_pings id [] = refl
rows_of-keep_pings id (p ∷ ps) = ground (arith, rows_of-keep_pings id ps)

rows_of-keep_pings_other :
    (id other : Text) (ps : List PingRow)
    → text_eq id other ≡ false
    → rows_of other (keep_pings id ps) ≡ rows_of other ps
unfolding rows_of keep_pings
rows_of-keep_pings_other id other [] h = refl
rows_of-keep_pings_other id other (p ∷ ps) h = ground (
  arith,
  rows_of-keep_pings_other id other ps h,
  text_eq_iff p.check_id id,
  text_eq_iff p.check_id other,
  text_eq_iff id other,
)

linked-keep_links :
    (id i : Text) (c : ℕ) (links : List (Text × ℕ))
    → linked i c (keep_links id links) ≡ (if text_eq id i then false else linked i c links)
unfolding linked keep_links
linked-keep_links id i c [] = ground arith
linked-keep_links id i c ((j, d) ∷ links) =
    ground
      (arith, linked-keep_links id i c links, text_eq_iff id i, text_eq_iff j i, text_eq_iff j id)

-- Where the driver does not fail, deleting a check that exists leaves no ping of it and no link of
-- it, and leaves the pings and the links of every other check.
pub delete-cascades :
    (id other : Text) (c : ℕ) (db : Db)
    → db.faults ≡ []
    → is_some (lookup id db.checks) ≡ true
    → text_eq id other ≡ false
    → (rows_of id (delete id db).1.ping_rows ≡ [])
      × (linked id c (delete id db).1.check_channels ≡ false)
      × (rows_of other (delete id db).1.ping_rows ≡ rows_of other db.ping_rows)
      × (linked other c (delete id db).1.check_channels ≡ linked other c db.check_channels)
unfolding delete exec delete_statement delete_row
delete-cascades id other c db quiet there h =
    rw (quiet, there)
      (
        rows_of-keep_pings id db.ping_rows,
        ground (arith, linked-keep_links id id c db.check_channels, text_eq_iff id id),
        rows_of-keep_pings_other id other db.ping_rows h,
        ground (arith, linked-keep_links id other c db.check_channels, h),
      )
