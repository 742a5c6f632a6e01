-- ===== src/Cache/Restart.antt =====
-- A restart: main.go makes an empty cache over the database and hydrates it.
use mathlib.Core.Option
use cron_mon.Base.{◌≡◌, sym, ◌∙◌, ok, Result-cases, inl, inr}
use cron_mon.Base.Text.{Text}
use cron_mon.Repository.{CheckRepository}
use cron_mon.Cache.{StateCache, empty_cache, hydrate, hydrated, get}
use cron_mon.Cache.Coherence.{CheckStore, Coherent, hydrate-Coherent}

module _ {Db : Type 0} {repo : CheckRepository Db} (laws : CheckStore repo) where
  open laws use {rows, stored, reads}

  pub hydrate-db : (sc : StateCache Db) (k : Text) → rows (hydrate repo sc).1.db k ≡ rows sc.db k
  unfolding hydrate hydrated
  hydrate-db sc k = elim (Result-cases (repo.list_all sc.db).0) [
    | inl (cs, p) ↦ rw (p, hydrated) (reads sc.db k)
    | inr (e, p) ↦ rw (p, hydrated) (reads sc.db k)
  ]

  -- If the process stops at any time when its cache agrees with the database, and the next process
  -- hydrates its empty cache without an error, then that finds under each ID the check of the old
  -- cache, as it is stored and read back.
  pub hydrate-empty_cache :
      (sc : StateCache Db)
      → Coherent laws sc
      → (hydrate repo (empty_cache repo sc.db)).0 ≡ ok tt
      → (k : Text)
      → Option.map stored (get k (hydrate repo (empty_cache repo sc.db)).1)
        ≡ Option.map stored (get k sc)
  unfolding empty_cache
  hydrate-empty_cache sc h e k =
      hydrate-Coherent laws (empty_cache repo sc.db) e k
      ∙ hydrate-db (empty_cache repo sc.db) k
      ∙ sym (h k)
