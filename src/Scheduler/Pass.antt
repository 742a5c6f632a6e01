-- ===== src/Scheduler/Pass.antt =====
-- The whole pass of evaluateAll in internal/scheduler/scheduler.go, seen by a lookup in the cache.
use mathlib.Core.List.{foldl}
use mathlib.Core.Option
use cron_mon.Base.{
  ◌≡◌, refl, sym, ap, ◌∙◌, inl, inr, true, Option, none, some, List, [], ◌∷◌, arith, ok,
  if◌then◌else◌, Bool-cases, All,
}
use cron_mon.Base.Text.{Text, text_eq, text_eq_iff}
use cron_mon.Time.{Time}
use cron_mon.Model.{Check}
use cron_mon.Repository.{CheckRepository}
use cron_mon.Table.{Table, lookup, values}
use cron_mon.Table.Laws.{lookup-put, lookup-Absent}
use cron_mon.Cache.{StateCache, store, set, get}
use cron_mon.Cache.Keys.{IsKeyed, values-lookup}
use cron_mon.Scheduler.{is_overdue, mark_down, transitioned, visit, evaluate}
use cron_mon.Scheduler.Calls.{UpdatesSucceed}
use cron_mon.Scheduler.Marking.{WasOverdue, checks-evaluate, evaluate-WasOverdue}

-- What the pass makes of one check.
abbrev pub settled : Time → Check → Check
settled now c = if is_overdue now c then mark_down now c else c

-- The checks that the pass takes down, as they are afterwards.
unfoldable pub downs : Time → List Check → List Check
downs now [] = []
downs now (c ∷ cs) = if is_overdue now c then mark_down now c ∷ downs now cs else downs now cs

-- A cached check is as it was, or it was overdue and is now down as of the pass.
pub data Settles (now : Time) (before after : Option Check) : Type 0 where
  kept : after ≡ before → Settles now before after
  marked :
      (c : Check)
      → before ≡ some c
      → is_overdue now c ≡ true
      → after ≡ some (mark_down now c)
      → Settles now before after

module _ {Db : Type 0} (checks : CheckRepository Db) (now : Time) where
  -- The stored check has the key of the one that it replaces.
  same :
      (m : Table Check) (k : Text) (c d : Check)
      → lookup c.id m ≡ some c
      → d ≡ mark_down now c
      → text_eq d.id k ≡ true
      → lookup k m ≡ some c
  unfolding mark_down
  same m k c d found e hit =
      rw (sym ((text_eq_iff d.id k).0 hit) ∙ ap (λ (x : Check). x.id) e) found

  stores-Settles :
      (m n : Table Check) (ds : List Check)
      → All (WasOverdue checks now (λ c. lookup c.id m ≡ some c)) ds
      → (k : Text) → Settles now (lookup k m) (lookup k n)
      → Settles now (lookup k m) (lookup k (foldl store n ds))
  unfolding mark_down
  stores-Settles m n [] h k s = s
  stores-Settles m n (d ∷ ds) h k s =
      let (c, found, late, e) = h.0 in
      stores-Settles m (store n d) ds h.1 k (
        rw (lookup-put d.id k d n) (elim (Bool-cases (text_eq d.id k)) [
          | inl hit ↦ rw hit (marked c (same m k c d found e hit) late (ap some e))
          | inr miss ↦ rw miss s
        ]))

  -- In a cache keyed by ID, the first phase of a pass changes no check but by taking an overdue
  -- one down, whichever writes fail.
  pub evaluate-Settles :
      (sc : StateCache Db)
      → IsKeyed sc.checks
      → (k : Text) → Settles now (get k sc) (get k (evaluate checks now (values sc.checks) sc).1)
  unfolding get
  evaluate-Settles sc v k = rw (checks-evaluate checks now (values sc.checks) sc) (
      stores-Settles sc.checks sc.checks _
        (evaluate-WasOverdue checks now _ (values sc.checks) sc (values-lookup sc.checks v)) k
        (kept refl))

-- The second option, unless the first holds an overdue check, which then is marked.
abbrev or_marked : Time → Option Check → Option Check → Option Check
or_marked now none o = o
or_marked now (some c) o = if is_overdue now c then some (mark_down now c) else o

or_marked_self : (now : Time) (o : Option Check) → or_marked now o o ≡ Option.map (settled now) o
or_marked_self now none = refl
or_marked_self now (some c) = elim (Bool-cases (is_overdue now c)) [
  | inl late ↦ rw late
  | inr early ↦ rw early
]

lookup-stores-downs :
    (now : Time) (m n : Table Check)
    → IsKeyed n
    → (k : Text)
    → lookup k (foldl store m (downs now (values n))) ≡ or_marked now (lookup k n) (lookup k m)
unfolding downs lookup mark_down
lookup-stores-downs now m [] v k = refl
lookup-stores-downs now m ((j, c) ∷ n) v k =
    let rest : IsKeyed n = record { keyed = v.keyed.1; distinct = v.distinct.1 } in
    let absent = lookup-Absent j n v.distinct.0 in
    elim (Bool-cases (is_overdue now c)) [
      | inl late ↦ rw late (
          lookup-stores-downs now (store m (mark_down now c)) n rest k
          ∙ rw (lookup-put c.id k (mark_down now c) m)
              (ground (arith, late, absent, v.keyed.0, text_eq_iff j k)))
      | inr early ↦
          rw early
            (lookup-stores-downs now m n rest k ∙ ground (arith, early, absent, text_eq_iff j k))
    ]

module _ {Db : Type 0} (checks : CheckRepository Db) (now : Time) where
  visit_reliable :
      (c : Check) (sc : StateCache Db)
      → (is_overdue now c ≡ true → (checks.update (mark_down now c) sc.db).0 ≡ ok tt)
      → (visit checks now c sc).0 ≡ (if is_overdue now c then mark_down now c ∷ [] else [])
  unfolding visit set
  visit_reliable c sc works = elim (Bool-cases (is_overdue now c)) [
    | inl late ↦ rw late (ap (λ r. transitioned r (mark_down now c)) (works late))
    | inr early ↦ rw early
  ]

  -- Where each update that is made succeeds, the pass reports every overdue check, and no other.
  pub evaluate-eq-downs :
      (cs : List Check) (sc : StateCache Db)
      → UpdatesSucceed checks now cs sc
      → (evaluate checks now cs sc).0 ≡ downs now cs
  unfolding evaluate downs
  evaluate-eq-downs [] sc works = refl
  evaluate-eq-downs (c ∷ cs) sc works =
      rw (visit_reliable c sc works.0, evaluate-eq-downs cs (visit checks now c sc).1 works.1)
        (elim (Bool-cases (is_overdue now c)) [ inl late ↦ rw late | inr early ↦ rw early ])

  -- Then the pass settles every check of the cache.
  pub get-evaluate :
      (sc : StateCache Db)
      → UpdatesSucceed checks now (values sc.checks) sc
      → IsKeyed sc.checks
      → (k : Text)
      → get k (evaluate checks now (values sc.checks) sc).1 ≡ Option.map (settled now) (get k sc)
  unfolding get
  get-evaluate sc works v k = rw (checks-evaluate checks now (values sc.checks) sc) (
      rw (evaluate-eq-downs (values sc.checks) sc works)
        (lookup-stores-downs now sc.checks sc.checks v k ∙ or_marked_self now (lookup k sc.checks)))
