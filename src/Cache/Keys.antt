-- ===== src/Cache/Keys.antt =====
-- The keys of the table in internal/cache/check_cache.go.
use mathlib.Core.List.{foldl}
use cron_mon.Base.{◌≡◌, refl, All, All-map, some, List, [], ◌∷◌, arith, Result, ok, err}
use cron_mon.Base.Text.{Text, text_eq_iff}
use cron_mon.Model.{Check}
use cron_mon.Repository.{CheckRepository}
use cron_mon.Table.{Table, lookup, put, remove, values}
use cron_mon.Table.Laws.{Distinct, lookup-Absent, Distinct-put, Distinct-remove}
use cron_mon.Cache.{StateCache, store, load, written, hydrated, hydrate, create, set, delete}

abbrev pub Keyed : Table Check → Type 0
Keyed [] = Unit {0}
Keyed ((k, c) ∷ m) = (k ≡ c.id) × Keyed m

-- The table is a map from the IDs of its checks.
pub record IsKeyed (m : Table Check) : Type 0 where
  pub keyed : Keyed m
  pub distinct : Distinct m

Keyed-put : (c : Check) (m : Table Check) → Keyed m → Keyed (put c.id c m)
unfolding put
Keyed-put c [] h = (refl, tt)
Keyed-put c ((j, d) ∷ m) h = ground (arith, Keyed-put c m h.1, text_eq_iff j c.id)

Keyed-remove : (k : Text) (m : Table Check) → Keyed m → Keyed (remove k m)
unfolding remove
Keyed-remove k [] h = tt
Keyed-remove k ((j, d) ∷ m) h = ground (arith, Keyed-remove k m h.1)

pub store-IsKeyed : (c : Check) (m : Table Check) → IsKeyed m → IsKeyed (store m c)
store-IsKeyed c m v = record {
  keyed = Keyed-put c m v.keyed;
  distinct = Distinct-put c.id c m v.distinct;
}

remove-IsKeyed : (k : Text) (m : Table Check) → IsKeyed m → IsKeyed (remove k m)
remove-IsKeyed k m v = record {
  keyed = Keyed-remove k m v.keyed;
  distinct = Distinct-remove k m v.distinct;
}

foldl-IsKeyed : (cs : List Check) (m : Table Check) → IsKeyed m → IsKeyed (foldl store m cs)
foldl-IsKeyed [] m v = v
foldl-IsKeyed (c ∷ cs) m v = foldl-IsKeyed cs (store m c) (store-IsKeyed c m v)

pub load-IsKeyed : (cs : List Check) → IsKeyed (load cs)
unfolding load
load-IsKeyed cs = foldl-IsKeyed cs [] (record { keyed = tt; distinct = tt })

-- What a lookup finds has the key that was asked for.
pub lookup-id :
    (k : Text) (m : Table Check) → Keyed m → (c : Check) → lookup k m ≡ some c → c.id ≡ k
unfolding lookup
lookup-id k [] h c e = cc
lookup-id k ((j, d) ∷ m) h c e = ground (arith, lookup-id k m h.1 c, text_eq_iff j k)

pub written-IsKeyed {ℓ} :
    {A : Type ℓ} (r : Result A) (m n : Table Check)
    → IsKeyed m
    → IsKeyed n
    → IsKeyed (written r m n)
written-IsKeyed (ok a) m n v w = w
written-IsKeyed (err e) m n v w = v

module _ {Db : Type 0} (sc : StateCache Db) where
  hydrated-IsKeyed :
      (db : Db) (r : Result (List Check)) → IsKeyed sc.checks → IsKeyed (hydrated sc db r).1.checks
  unfolding hydrated
  hydrated-IsKeyed db (ok cs) v = load-IsKeyed cs
  hydrated-IsKeyed db (err e) v = v

module _ {Db : Type 0} (repo : CheckRepository Db) (sc : StateCache Db) where
  pub hydrate-IsKeyed : IsKeyed sc.checks → IsKeyed (hydrate repo sc).1.checks
  unfolding hydrate
  hydrate-IsKeyed v = hydrated-IsKeyed sc _ (repo.list_all sc.db).0 v

  pub create-IsKeyed : (c : Check) → IsKeyed sc.checks → IsKeyed (create repo c sc).1.checks
  unfolding create
  create-IsKeyed c v = written-IsKeyed _ _ _ v (store-IsKeyed c sc.checks v)

  pub set-IsKeyed : (c : Check) → IsKeyed sc.checks → IsKeyed (set repo c sc).1.checks
  unfolding set
  set-IsKeyed c v = written-IsKeyed _ _ _ v (store-IsKeyed c sc.checks v)

  pub delete-IsKeyed : (k : Text) → IsKeyed sc.checks → IsKeyed (delete repo k sc).1.checks
  unfolding delete
  delete-IsKeyed k v = written-IsKeyed _ _ _ v (remove-IsKeyed k sc.checks v)

-- Every check of the table is the one that its ID looks up.
pub values-lookup : (m : Table Check) → IsKeyed m → All (λ c. lookup c.id m ≡ some c) (values m)
unfolding lookup
values-lookup [] v = tt
values-lookup ((j, d) ∷ m) v =
    let below = values-lookup m (record { keyed = v.keyed.1; distinct = v.distinct.1 }) in
    (ground (arith, text_eq_iff j d.id, v.keyed.0), All-map (values m) step below)
  where
    step : (c : Check) → lookup c.id m ≡ some c → lookup c.id ((j, d) ∷ m) ≡ some c
    step c e = ground (arith, e, text_eq_iff j c.id, lookup-Absent j m v.distinct.0)
