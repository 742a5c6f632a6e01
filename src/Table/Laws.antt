-- ===== src/Table/Laws.antt =====
-- Laws of the tables: distinct keys, and what each operation does to a lookup.
use cron_mon.Base.{◌≡◌, refl, false, none, some, [], ◌∷◌, arith, if◌then◌else◌}
use cron_mon.Base.Text.{Text, text_eq, text_eq_iff}
use cron_mon.Table.{Table, lookup, put, remove}

module _ {ℓ} {V : Type ℓ} where
  -- The key stands nowhere in the table.
  abbrev pub Absent : Text → Table V → Type 0
  Absent k [] = Unit {0}
  Absent k ((j, v) ∷ m) = (text_eq j k ≡ false) × Absent k m

  abbrev pub Distinct : Table V → Type 0
  Distinct [] = Unit {0}
  Distinct ((j, v) ∷ m) = Absent j m × Distinct m

  pub lookup-Absent : (k : Text) (m : Table V) → Absent k m → lookup k m ≡ none
  unfolding lookup
  lookup-Absent k [] h = refl
  lookup-Absent k ((j, v) ∷ m) h = rw h.0 (lookup-Absent k m h.1)

  Absent-put :
      (j k : Text) (v : V) (m : Table V) → text_eq k j ≡ false → Absent j m → Absent j (put k v m)
  unfolding put
  Absent-put j k v [] e h = (e, tt)
  Absent-put j k v ((i, w) ∷ m) e h = ground (arith, Absent-put j k v m e h.1)

  pub Distinct-put : (k : Text) (v : V) (m : Table V) → Distinct m → Distinct (put k v m)
  unfolding put
  Distinct-put k v [] h = (tt, tt)
  Distinct-put k v ((j, w) ∷ m) h =
      ground (arith, Distinct-put k v m h.1, Absent-put j k v m, text_eq_iff j k, text_eq_iff k j)

  Absent-remove : (j k : Text) (m : Table V) → Absent j m → Absent j (remove k m)
  unfolding remove
  Absent-remove j k [] h = tt
  Absent-remove j k ((i, w) ∷ m) h = ground (arith, Absent-remove j k m h.1)

  pub Distinct-remove : (k : Text) (m : Table V) → Distinct m → Distinct (remove k m)
  unfolding remove
  Distinct-remove k [] h = tt
  Distinct-remove k ((j, w) ∷ m) h =
      ground (arith, Distinct-remove k m h.1, Absent-remove j k m h.0)

  pub lookup-put :
      (k j : Text) (v : V) (m : Table V)
      → lookup j (put k v m) ≡ (if text_eq k j then some v else lookup j m)
  unfolding lookup put
  lookup-put k j v [] = refl
  lookup-put k j v ((i, w) ∷ m) =
      ground (arith, text_eq_iff k j, text_eq_iff i k, text_eq_iff i j, lookup-put k j v m)

  Absent-eq : (i k : Text) (m : Table V) → i ≡ k → Absent i m → Absent k m
  Absent-eq i k [] e h = tt
  Absent-eq i k ((j, v) ∷ m) e h = (rw (← e) h.0, Absent-eq i k m e h.1)

  pub lookup-remove :
      (k j : Text) (m : Table V)
      → Distinct m
      → lookup j (remove k m) ≡ (if text_eq k j then none else lookup j m)
  unfolding lookup remove
  lookup-remove k j [] h = ground arith
  lookup-remove k j ((i, w) ∷ m) h = ground (
    arith,
    text_eq_iff k j,
    text_eq_iff i k,
    text_eq_iff i j,
    lookup-remove k j m h.1,
    Absent-eq i j m,
    lookup-Absent j m,
  )
