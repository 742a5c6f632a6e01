-- ===== src/Scheduler/Marking.antt =====
-- Phase 1 of evaluateAll in internal/scheduler/scheduler.go: which checks go down.
use mathlib.Core.List.{foldl, foldl-append}
use cron_mon.Base.{
  ◌≡◌, refl, ◌∙◌, inl, inr, true, List, [], ◌∷◌, Result, ok, err, Bool-cases, All, All-append,
}
use cron_mon.Time.{Time}
use cron_mon.Model.{Check}
use cron_mon.Repository.{CheckRepository}
use cron_mon.Cache.{StateCache, store, set, written}
use cron_mon.Scheduler.{is_overdue, mark_down, transitioned, visit, evaluate}

module _ {Db : Type 0} (checks : CheckRepository Db) (now : Time) where
  -- An invariant of the cache that each marking write keeps holds after the pass.
  visit_inv {ℓ} :
      (P : StateCache Db → Type ℓ) (c : Check) (sc : StateCache Db)
      → (P sc → P (set checks (mark_down now c) sc).1)
      → P sc
      → P (visit checks now c sc).1
  unfolding visit
  visit_inv P c sc keep h = elim (Bool-cases (is_overdue now c)) [
    | inl late ↦ rw late (keep h)
    | inr early ↦ rw early h
  ]

  pub evaluate_inv {ℓ} :
      (P : StateCache Db → Type ℓ) (Q : Check → Type 0)
      → ((c : Check) (sc : StateCache Db) → Q c → P sc → P (set checks (mark_down now c) sc).1)
      → (cs : List Check) (sc : StateCache Db) → All Q cs
      → P sc
      → P (evaluate checks now cs sc).1
  unfolding evaluate
  evaluate_inv P Q keep [] sc q h = h
  evaluate_inv P Q keep (c ∷ cs) sc q h =
      evaluate_inv P Q keep cs (visit checks now c sc).1 q.1 (visit_inv P c sc (keep c sc q.0) h)

  -- The table changes by the checks that the pass reports as transitioned, and by nothing else.
  checks-visit :
      (c : Check) (sc : StateCache Db)
      → (visit checks now c sc).1.checks ≡ foldl store sc.checks (visit checks now c sc).0
  unfolding visit set
  checks-visit c sc = elim (Bool-cases (is_overdue now c)) [
    | inl late ↦ rw late (reported (checks.update (mark_down now c) sc.db).0)
    | inr early ↦ rw early
  ]
    where
      reported :
          (r : Result Unit)
          → written r sc.checks (store sc.checks (mark_down now c))
            ≡ foldl store sc.checks (transitioned r (mark_down now c))
      reported (ok a) = refl
      reported (err e) = refl

  pub checks-evaluate :
      (cs : List Check) (sc : StateCache Db)
      → (evaluate checks now cs sc).1.checks ≡ foldl store sc.checks (evaluate checks now cs sc).0
  unfolding evaluate
  checks-evaluate [] sc = refl
  checks-evaluate (c ∷ cs) sc =
      checks-evaluate cs (visit checks now c sc).1 ∙ rw (checks-visit c sc, foldl-append)

  -- Each transitioned check was in the list, and overdue.
  abbrev pub WasOverdue : (Check → Type 0) → Check → Type 0
  WasOverdue P d = (c : Check) × P c × (is_overdue now c ≡ true) × (d ≡ mark_down now c)

  visit-WasOverdue :
      (P : Check → Type 0) (c : Check) (sc : StateCache Db)
      → P c
      → All (WasOverdue P) (visit checks now c sc).0
  unfolding visit
  visit-WasOverdue P c sc p = elim (Bool-cases (is_overdue now c)) [
    | inl late ↦ rw late (reported late (set checks (mark_down now c) sc).0)
    | inr early ↦ rw early tt
  ]
    where
      reported :
          is_overdue now c ≡ true
          → (r : Result Unit) → All (WasOverdue P) (transitioned r (mark_down now c))
      reported late (ok a) = ((c, p, late, refl), tt)
      reported late (err e) = tt

  pub evaluate-WasOverdue :
      (P : Check → Type 0) (cs : List Check) (sc : StateCache Db)
      → All P cs
      → All (WasOverdue P) (evaluate checks now cs sc).0
  unfolding evaluate
  evaluate-WasOverdue P [] sc h = tt
  evaluate-WasOverdue P (c ∷ cs) sc h =
      All-append (WasOverdue P) _ _ (visit-WasOverdue P c sc h.0)
        (evaluate-WasOverdue P cs (visit checks now c sc).1 h.1)
