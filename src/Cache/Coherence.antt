-- ===== src/Cache/Coherence.antt =====
-- Agreement of the cache of internal/cache/check_cache.go with its database, which is any that
-- satisfies `CheckStore`.
use cron_mon.Base.{
  ◌≡◌, refl, sym, ap, ◌∙◌, inl, inr, Option-cases, Bool, true, false, Option, none, some, List,
  Result, ok, err, Error, Result-cases, if◌then◌else◌,
}
use mathlib.Core.Option
use cron_mon.Base.Text.{Text, text_eq}
use cron_mon.Model.{Check}
use cron_mon.Repository.{CheckRepository}
use cron_mon.Table.{Table, lookup}
use cron_mon.Table.Laws.{lookup-put, lookup-remove}
use cron_mon.Cache.{StateCache, store, load, written, hydrated, hydrate, create, set, delete, get}
use cron_mon.Cache.Keys.{IsKeyed}

-- The rows of the database, by ID.
abbrev pub Rows : Type 0
Rows = Text → Option Check

-- A write that succeeds has its effect on the rows, and one that fails has none.
pub data Writes {ℓ} {A : Type ℓ} (r : Result A) (before after effect : Rows) : Type ℓ where
  succeeded : (a : A) → r ≡ ok a → ((k : Text) → after k ≡ effect k) → Writes r before after effect
  failed :
      (e : Error) → r ≡ err e → ((k : Text) → after k ≡ before k) → Writes r before after effect

-- What the cache relies on of a CheckRepository. `stored c` is what reading `c` back gives.
pub record CheckStore {Db : Type 0} (repo : CheckRepository Db) : Type 0 where
  pub rows : Db → Rows
  pub stored : Check → Check
  pub stored_created :
      (c d : Check) → c.created_at ≡ d.created_at → (stored c).created_at ≡ (stored d).created_at
  pub creates :
      (c : Check) (db : Db)
      → Writes
          (repo.create c db).0
          (rows db)
          (rows (repo.create c db).1)
          (λ k. if text_eq c.id k then some (stored c) else rows db k)
  -- An update does not write `created_at`.
  pub updates :
      (c : Check) (db : Db)
      → ((old : Check) → rows db c.id ≡ some old → (stored c).created_at ≡ old.created_at)
      → Writes
          (repo.update c db).0
          (rows db)
          (rows (repo.update c db).1)
          (λ k. if text_eq c.id k then some (stored c) else rows db k)
  pub deletes :
      (id : Text) (db : Db)
      → Writes
          (repo.delete id db).0
          (rows db)
          (rows (repo.delete id db).1)
          (λ k. if text_eq id k then none else rows db k)
  pub reads : (db : Db) (k : Text) → rows (repo.list_all db).1 k ≡ rows db k
  pub lists :
      (db : Db) (cs : List Check)
      → (repo.list_all db).0 ≡ ok cs
      → (k : Text) → Option.map stored (lookup k (load cs)) ≡ rows db k

module _ {Db : Type 0} {repo : CheckRepository Db} (laws : CheckStore repo) where
  open laws use {rows, stored}

  -- The cached check of every ID is, once stored, the row of that ID.
  abbrev pub Coherent : StateCache Db → Type 0
  Coherent sc = (k : Text) → Option.map stored (get k sc) ≡ rows sc.db k

  written-rows {ℓ} :
      {A : Type ℓ} (r : Result A) {before after effect : Rows} (old new : Table Check)
      → Writes r before after effect
      → ((k : Text) → Option.map stored (lookup k old) ≡ before k)
      → ((k : Text) → Option.map stored (lookup k new) ≡ effect k)
      → (k : Text) → Option.map stored (lookup k (written r old new)) ≡ after k
  written-rows r old new (succeeded a e w) h h' k = rw e (h' k ∙ sym (w k))
  written-rows r old new (failed e p w) h h' k = rw p (h k ∙ sym (w k))

  -- `Option.map` under the two-way tests in which the laws of tables and databases are stated.
  map-if :
      (b : Bool) (x y x' y' : Option Check)
      → Option.map stored x ≡ x'
      → Option.map stored y ≡ y'
      → Option.map stored (if b then x else y) ≡ (if b then x' else y')
  map-if true x y x' y' p q = p
  map-if false x y x' y' p q = q

  lookup-store :
      (c : Check) (m : Table Check) (k : Text) (o : Option Check)
      → Option.map stored (lookup k m) ≡ o
      → Option.map stored (lookup k (store m c)) ≡ (if text_eq c.id k then some (stored c) else o)
  lookup-store c m k o h =
      rw (lookup-put c.id k c m) (map-if (text_eq c.id k) (some c) _ (some (stored c)) o refl h)

  -- A Hydrate that returns no error makes the cache agree with the database, whatever it held
  -- before.
  pub hydrate-Coherent :
      (sc : StateCache Db) → (hydrate repo sc).0 ≡ ok tt → Coherent (hydrate repo sc).1
  unfolding hydrate hydrated get
  hydrate-Coherent sc e k = elim (Result-cases (repo.list_all sc.db).0) [
    | inl (cs, p) ↦ rw (p, hydrated) (laws.lists sc.db cs p k ∙ sym (laws.reads sc.db k))
    | inr (f, p) ↦ cc p
  ]

  -- Create keeps the agreement, and so does a Create that fails.
  pub create-Coherent :
      (c : Check) (sc : StateCache Db) → Coherent sc → Coherent (create repo c sc).1
  unfolding create get
  create-Coherent c sc h =
      written-rows _ sc.checks _ (laws.creates c sc.db) h λ k. lookup-store c sc.checks k _ (h k)

  -- The written check has the creation time of the cached one.
  abbrev pub KeepsCreation : Check → StateCache Db → Type 0
  KeepsCreation c sc = (d : Check) → get c.id sc ≡ some d → c.created_at ≡ d.created_at

  row-created :
      (c : Check) (sc : StateCache Db) (old : Check)
      → Coherent sc
      → KeepsCreation c sc
      → rows sc.db c.id ≡ some old
      → (stored c).created_at ≡ old.created_at
  row-created c sc old h keeps e = elim (Option-cases (get c.id sc)) [
    | inl missing ↦ cc (h c.id, ap (Option.map stored) missing)
    | inr (d, found) ↦
        let same : stored d ≡ old = cc (h c.id, ap (Option.map stored) found) in
        laws.stored_created c d (keeps d found) ∙ ap (λ (x : Check). x.created_at) same
  ]

  -- Set keeps the agreement of the cache with its database, whether it succeeds or fails, for a
  -- check with the creation time of the cached one, if there is one.
  pub set-Coherent :
      (c : Check) (sc : StateCache Db)
      → KeepsCreation c sc
      → Coherent sc
      → Coherent (set repo c sc).1
  unfolding set get
  set-Coherent c sc keeps h =
      written-rows _ sc.checks _ (laws.updates c sc.db (λ old e. row-created c sc old h keeps e)) h
        λ k. lookup-store c sc.checks k _ (h k)

  -- And Delete.
  pub delete-Coherent :
      (id : Text) (sc : StateCache Db)
      → IsKeyed sc.checks
      → Coherent sc
      → Coherent (delete repo id sc).1
  unfolding delete get
  delete-Coherent id sc v h = written-rows _ sc.checks _ (laws.deletes id sc.db) h λ k.
      rw (lookup-remove id k sc.checks v.distinct) (map-if (text_eq id k) none _ none _ refl (h k))
