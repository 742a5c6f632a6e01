-- ===== src/Migrations/Order.antt =====
-- The order of names that Migrate in internal/db/db.go sorts by.
use cron_mon.Base.{List, arith}
use cron_mon.Base.Sorting.{sort_by, IsSortedBy, sort_by-IsSortedBy}
use cron_mon.Base.Order.{text_ltb_asymm, text_leb_trans}
use cron_mon.Migrations.{Entry, by_name}

-- Entries that are sorted by name stand in the order of their names.
pub sort_by-by_name : (es : List Entry) → IsSortedBy by_name (sort_by by_name es)
sort_by-by_name =
    sort_by-IsSortedBy by_name (λ a b h. ground (arith, text_ltb_asymm b.name a.name))
      (λ a b c h k. ground (arith, text_leb_trans a.name b.name c.name))
