-- ===== src/Base/Sorting.antt =====
-- Insertion sort, for `ORDER BY` and for package sort. `le a b` says that `a` may stand before `b`.
use mathlib.Core.List.{Perm}
use mathlib.Core.List.Perm
use mathlib.Core.Path.{◌≡◌}
use mathlib.Core.Logic.{inl, inr}
use mathlib.Core.Bool.{Bool, true, false}
use mathlib.Core.List.{List, [], ◌∷◌}
use cron_mon.Base.Tests.{if◌then◌else◌, Bool-cases}
use cron_mon.Base.Lists.{All, All-map}

module _ {ℓ} {A : Type ℓ} (le : A → A → Bool) where
  unfoldable pub insert_by : A → List A → List A
  insert_by a [] = a ∷ []
  insert_by a (b ∷ l) = if le a b then a ∷ b ∷ l else b ∷ insert_by a l

  unfoldable pub sort_by : List A → List A
  unfolding insert_by
  sort_by [] = []
  sort_by (a ∷ l) = insert_by a (sort_by l)

  -- Each element may stand before all that follow it.
  abbrev pub IsSortedBy : List A → Type 0
  IsSortedBy [] = Unit {0}
  IsSortedBy (a ∷ l) = All (λ b. le a b ≡ true) l × IsSortedBy l

  pub insert_by-perm : (a : A) (l : List A) → Perm (insert_by a l) (a ∷ l)
  unfolding insert_by
  insert_by-perm a [] = Perm.refl (a ∷ [])
  insert_by-perm a (b ∷ l) = elim (Bool-cases (le a b)) [
    | inl p ↦ rw p (Perm.refl _)
    | inr p ↦ rw p (Perm.trans (Perm.cons b (insert_by-perm a l)) (Perm.swap a b l))
  ]

  pub sort_by-perm : (l : List A) → Perm (sort_by l) l
  unfolding sort_by
  sort_by-perm [] = Perm.refl []
  sort_by-perm (a ∷ l) = Perm.trans (insert_by-perm a (sort_by l)) (Perm.cons a (sort_by-perm l))

  All-insert_by {κ} : (P : A → Type κ) (a : A) (l : List A) → P a → All P l → All P (insert_by a l)
  unfolding insert_by
  All-insert_by P a [] p h = (p, tt)
  All-insert_by P a (b ∷ l) p h = elim (Bool-cases (le a b)) [
    | inl e ↦ rw e (p, h)
    | inr e ↦ rw e (h.0, All-insert_by P a l p h.1)
  ]

  pub All-sort_by {κ} : (P : A → Type κ) (l : List A) → All P l → All P (sort_by l)
  unfolding sort_by
  All-sort_by P [] h = tt
  All-sort_by P (a ∷ l) h = All-insert_by P a (sort_by l) h.0 (All-sort_by P l h.1)

  module _ (total : (a b : A) → le a b ≡ false → le b a ≡ true)
      (trans : (a b c : A) → le a b ≡ true → le b c ≡ true → le a c ≡ true) where
    insert_by-IsSortedBy : (a : A) (l : List A) → IsSortedBy l → IsSortedBy (insert_by a l)
    unfolding insert_by
    insert_by-IsSortedBy a [] s = (tt, tt)
    insert_by-IsSortedBy a (b ∷ l) s = elim (Bool-cases (le a b)) [
      | inl e ↦ rw e ((e, All-map l (λ c h. trans a b c e h) s.0), s)
      | inr e ↦ rw e (All-insert_by _ a l (total a b e) s.0, insert_by-IsSortedBy a l s.1)
    ]

    pub sort_by-IsSortedBy : (l : List A) → IsSortedBy (sort_by l)
    unfolding sort_by
    sort_by-IsSortedBy [] = tt
    sort_by-IsSortedBy (a ∷ l) = insert_by-IsSortedBy a (sort_by l) (sort_by-IsSortedBy l)
