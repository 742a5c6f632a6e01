-- ===== src/Scheduler/Persisted.antt =====
-- Phase 1 of evaluateAll in internal/scheduler/scheduler.go, and the agreement of the cache with
-- its database.
use mathlib.Core.Option
use cron_mon.Base.{◌≡◌, refl, sym, ap, Option, some, All-map}
use cron_mon.Base.Text.{Text}
use cron_mon.Time.{Time}
use cron_mon.Model.{Check}
use cron_mon.Repository.{CheckRepository}
use cron_mon.Table.{values}
use cron_mon.Cache.{StateCache, get, set}
use cron_mon.Cache.Keys.{IsKeyed, values-lookup}
use cron_mon.Cache.Lookup.{Wrote, untouched, replaced, set-Wrote}
use cron_mon.Cache.Coherence.{CheckStore, Coherent, KeepsCreation, set-Coherent}
use cron_mon.Scheduler.{mark_down, evaluate}
use cron_mon.Scheduler.Marking.{evaluate_inv}

abbrev creation : Check → Time
creation c = c.created_at

module _ {Db : Type 0} {checks : CheckRepository Db} (laws : CheckStore checks) (now : Time)
    (created : Text → Option Time) where
  -- Agreement with the database, and creation times as they were before the pass.
  record IsPersisted (sc : StateCache Db) : Type 0 where
    coherent : Coherent laws sc
    times : (k : Text) → Option.map creation (get k sc) ≡ created k

  mark-keeps :
      (c : Check) (sc : StateCache Db)
      → created c.id ≡ some c.created_at
      → IsPersisted sc
      → KeepsCreation laws (mark_down now c) sc
  unfolding mark_down
  mark-keeps c sc q p d found = cc (q, p.times c.id)

  times-Wrote :
      (c : Check) (k : Text) (before after : Option Check)
      → created c.id ≡ some c.created_at
      → Option.map creation before ≡ created k
      → Wrote k (mark_down now c) before after
      → Option.map creation after ≡ created k
  unfolding mark_down
  times-Wrote c k before after q h (untouched e) = rw e h
  times-Wrote c k before after q h (replaced same e) = rw e (rw (← same) (sym q))

  mark-IsPersisted :
      (c : Check) (sc : StateCache Db)
      → created c.id ≡ some c.created_at
      → IsPersisted sc
      → IsPersisted (set checks (mark_down now c) sc).1
  mark-IsPersisted c sc q p = record {
    coherent = set-Coherent laws (mark_down now c) sc (mark-keeps c sc q p) p.coherent;
    times =
        λ k. times-Wrote c k (get k sc) _ q (p.times k) (set-Wrote checks sc k (mark_down now c));
  }

module _ {Db : Type 0} {checks : CheckRepository Db} (laws : CheckStore checks) (now : Time) where
  pub evaluate-Coherent :
      (sc : StateCache Db)
      → IsKeyed sc.checks
      → Coherent laws sc
      → Coherent laws (evaluate checks now (values sc.checks) sc).1
  unfolding get
  evaluate-Coherent sc v h = persisted.coherent
    where
      created : Text → Option Time
      created k = Option.map creation (get k sc)

      persisted : IsPersisted laws now created (evaluate checks now (values sc.checks) sc).1
      persisted =
          evaluate_inv checks now (IsPersisted laws now created)
            (λ c. created c.id ≡ some c.created_at)
            (λ c sc' q p. mark-IsPersisted laws now created c sc' q p) (values sc.checks) sc
            (All-map (values sc.checks) (λ c e. ap (Option.map creation) e)
              (values-lookup sc.checks v))
            (record { coherent = h; times = λ k. refl })
