-- ===== src/Table/Sorting.antt =====
-- Sorting the entries of a table, as ORDER BY does with rows.
use cron_mon.Base.{◌≡◌, refl, ap, ◌∙◌, Bool, false, some, [], ◌∷◌, arith, if◌then◌else◌}
use cron_mon.Base.Text.{Text, text_eq, text_eq_iff}
use cron_mon.Base.Sorting.{insert_by, sort_by}
use cron_mon.Table.{Table, lookup}
use cron_mon.Table.Laws.{Absent, Distinct}

-- Sorting a table does not change what is found in it.
module _ {ℓ} {V : Type ℓ} (le : Text × V → Text × V → Bool) where
  lookup-insert_by :
      (k : Text) (e : Text × V) (m : Table V)
      → Absent e.0 m
      → lookup k (insert_by le e m) ≡ lookup k (e ∷ m)
  unfolding insert_by lookup
  lookup-insert_by k e [] h = refl
  lookup-insert_by k (i, r) ((j, s) ∷ m) h =
      ground
        (arith, lookup-insert_by k (i, r) m h.1, text_eq_iff i k, text_eq_iff j k, text_eq_iff j i)

  Absent-insert_by :
      (k : Text) (e : Text × V) (m : Table V)
      → text_eq e.0 k ≡ false
      → Absent k m
      → Absent k (insert_by le e m)
  unfolding insert_by
  Absent-insert_by k e [] p h = (p, tt)
  Absent-insert_by k e ((j, s) ∷ m) p h = ground (arith, Absent-insert_by k e m p h.1)

  Absent-sort_by : (k : Text) (m : Table V) → Absent k m → Absent k (sort_by le m)
  unfolding sort_by
  Absent-sort_by k [] h = tt
  Absent-sort_by k (e ∷ m) h = Absent-insert_by k e (sort_by le m) h.0 (Absent-sort_by k m h.1)

  Distinct-insert_by :
      (e : Text × V) (m : Table V) → Absent e.0 m → Distinct m → Distinct (insert_by le e m)
  unfolding insert_by
  Distinct-insert_by e [] h d = (tt, tt)
  Distinct-insert_by (i, r) ((j, s) ∷ m) h d = ground (
    arith,
    Distinct-insert_by (i, r) m h.1 d.1,
    Absent-insert_by j (i, r) m,
    text_eq_iff i j,
    text_eq_iff j i,
  )

  pub Distinct-sort_by : (m : Table V) → Distinct m → Distinct (sort_by le m)
  unfolding sort_by
  Distinct-sort_by [] d = tt
  Distinct-sort_by (e ∷ m) d =
      Distinct-insert_by e (sort_by le m) (Absent-sort_by e.0 m d.0) (Distinct-sort_by m d.1)

  pub lookup-sort_by : (k : Text) (m : Table V) → Distinct m → lookup k (sort_by le m) ≡ lookup k m
  unfolding sort_by lookup
  lookup-sort_by k [] d = refl
  lookup-sort_by k ((i, r) ∷ m) d =
      lookup-insert_by k (i, r) (sort_by le m) (Absent-sort_by i m d.0)
      ∙ ap (λ o. if text_eq i k then some r else o) (lookup-sort_by k m d.1)
