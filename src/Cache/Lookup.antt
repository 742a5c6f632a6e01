-- ===== src/Cache/Lookup.antt =====
-- What the writes of internal/cache/check_cache.go do to a lookup.
use cron_mon.Base.{
  ◌≡◌, refl, ◌∙◌, ◌⊎◌, inl, inr, Option, none, some, Result, ok, err, Error, if◌then◌else◌,
  Bool-cases, Result-cases,
}
use cron_mon.Base.Text.{Text, text_eq, text_eq_iff}
use cron_mon.Model.{Check}
use cron_mon.Repository.{CheckRepository}
use cron_mon.Table.{Table, lookup}
use cron_mon.Table.Laws.{lookup-put, lookup-remove}
use cron_mon.Cache.{StateCache, store, written, create, set, delete, get}
use cron_mon.Cache.Keys.{IsKeyed}

-- A lookup is as before the write of `c`, or it finds `c` under its ID.
pub data Wrote (k : Text) (c : Check) (before after : Option Check) : Type 0 where
  untouched : after ≡ before → Wrote k c before after
  replaced : c.id ≡ k → after ≡ some c → Wrote k c before after

written-Wrote {ℓ} :
    {A : Type ℓ} (r : Result A) (m : Table Check) (k : Text) (c : Check)
    → Wrote k c (lookup k m) (lookup k (written r m (store m c)))
written-Wrote (err e) m k c = untouched refl
written-Wrote (ok a) m k c = elim (Bool-cases (text_eq c.id k)) [
  | inl hit ↦ replaced ((text_eq_iff c.id k).0 hit) (lookup-put c.id k c m ∙ rw hit)
  | inr miss ↦ untouched (lookup-put c.id k c m ∙ rw miss)
]

module _ {Db : Type 0} (repo : CheckRepository Db) (sc : StateCache Db) (k : Text) where
  pub set-Wrote : (c : Check) → Wrote k c (get k sc) (get k (set repo c sc).1)
  unfolding set get
  set-Wrote c = written-Wrote (repo.update c sc.db).0 sc.checks k c

  pub create-Wrote : (c : Check) → Wrote k c (get k sc) (get k (create repo c sc).1)
  unfolding create get
  create-Wrote c = written-Wrote (repo.create c sc.db).0 sc.checks k c

  -- A Set that succeeds replaces the check of its ID, and no other.
  pub get-set :
      (c : Check)
      → (set repo c sc).0 ≡ ok tt
      → get k (set repo c sc).1 ≡ (if text_eq c.id k then some c else get k sc)
  unfolding set get
  get-set c e = rw e (lookup-put c.id k c sc.checks)

  -- A Set that fails leaves the cache as it was.
  pub get-set_failed :
      (c : Check) (e : Error) → (set repo c sc).0 ≡ err e → get k (set repo c sc).1 ≡ get k sc
  unfolding set get
  get-set_failed c e p = rw p

  -- A lookup after Delete is as before, or it fails.
  pub delete-removes :
      (id : Text)
      → IsKeyed sc.checks
      → (get k (delete repo id sc).1 ≡ get k sc) ⊎ (get k (delete repo id sc).1 ≡ none)
  unfolding delete get
  delete-removes id v = elim (Result-cases (repo.delete id sc.db).0) [
    | inr (e, p) ↦ inl (rw p)
    | inl (a, p) ↦ elim (Bool-cases (text_eq id k)) [
      | inl hit ↦ inr (rw p (lookup-remove id k sc.checks v.distinct ∙ rw hit))
      | inr miss ↦ inl (rw p (lookup-remove id k sc.checks v.distinct ∙ rw miss))
    ]
  ]
