-- ===== src/Cache.antt =====
-- internal/cache/check_cache.go: the in-memory table of checks that writes through to a
-- CheckRepository. Every method holds the mutex throughout, so it is one step on the cache and the
-- database behind it. Checks are values here: `cloneCheck` has nothing to copy.
pub mod Coherence
pub mod Keys
pub mod Lookup
pub mod Restart
use mathlib.Core.List.{foldl}
use cron_mon.Base.{List, [], Option, Result, ok, err}
use cron_mon.Base.Text.{Text}
use cron_mon.Model.{Check}
use cron_mon.Repository.{CheckRepository}
use cron_mon.Table.{Table, lookup, put, remove, values}

pub record StateCache (Db : Type 0) : Type 0 where
  pub checks : Table Check
  pub db : Db

-- sc.checks[c.ID] = cloneCheck(c)
abbrev pub store : Table Check → Check → Table Check
store m c = put c.id c m

-- The table that Hydrate builds.
unfoldable pub load : List Check → Table Check
load = foldl store []

-- The table after a database call: a failed call leaves it as it was.
abbrev pub written {ℓ} : {A : Type ℓ} → Result A → Table Check → Table Check → Table Check
written (ok a) old new = new
written (err e) old new = old

module _ {Db : Type 0} where
  -- What Hydrate makes of the query's result.
  unfoldable pub hydrated :
      StateCache Db → Db → Result (List Check) → Result (Unit {0}) × StateCache Db
  hydrated sc db' (ok checks) = (ok tt, record { checks = load checks; db = db' })
  hydrated sc db' (err e) = (err e, record sc { db = db' })

module _ {Db : Type 0} (repo : CheckRepository Db) where
  -- New
  unfoldable pub empty_cache : Db → StateCache Db
  empty_cache db = record { checks = []; db = db }

  unfoldable pub hydrate : StateCache Db → Result (Unit {0}) × StateCache Db
  unfolding hydrated
  hydrate sc = let (r, db') = repo.list_all sc.db in hydrated sc db' r

  unfoldable pub create : Check → StateCache Db → Result (Unit {0}) × StateCache Db
  create c sc =
      let (r, db') = repo.create c sc.db in
      (r, record { checks = written r sc.checks (store sc.checks c); db = db' })

  -- setLocked, which is all of Set and of the `update` closure of WithWriteLock.
  unfoldable pub set : Check → StateCache Db → Result (Unit {0}) × StateCache Db
  set c sc =
      let (r, db') = repo.update c sc.db in
      (r, record { checks = written r sc.checks (store sc.checks c); db = db' })

  unfoldable pub delete : Text → StateCache Db → Result (Unit {0}) × StateCache Db
  delete uuid sc =
      let (r, db') = repo.delete uuid sc.db in
      (r, record { checks = written r sc.checks (remove uuid sc.checks); db = db' })

module _ {Db : Type 0} where
  unfoldable pub get : Text → StateCache Db → Option Check
  get uuid sc = lookup uuid sc.checks

  unfoldable pub snapshot : StateCache Db → List Check
  snapshot sc = values sc.checks

  -- WithWriteLock: `fn` gets copies of all checks, and works on the locked cache.
  unfoldable pub with_write_lock {ℓ} :
      {A : Type ℓ}
      → (List Check → StateCache Db → A × StateCache Db)
      → StateCache Db
      → A × StateCache Db
  with_write_lock fn sc = fn (values sc.checks) sc
