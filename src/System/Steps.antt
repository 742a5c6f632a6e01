-- ===== src/System/Steps.antt =====
-- The passes of internal/scheduler/scheduler.go and the pings of internal/handler/ping.go under the
-- invariant of the shared state.
use cron_mon.Base.{
  ◌≡◌, refl, sym, ◌∙◌, Bool, true, false, Option, some, List, [], ◌∷◌, ◌&&◌, arith, Result, ok, err,
  All-unit, if◌then◌else◌,
}
use cron_mon.Base.Text.{Text}
use cron_mon.Time.{Time}
use cron_mon.Model.{Check, PingType, AlertType, is_paused}
use cron_mon.Model.Pausing.{pause_sound}
use cron_mon.Table.{values}
use cron_mon.Cache.{get, set, with_write_lock}
use cron_mon.Cache.Keys.{IsKeyed, set-IsKeyed}
use cron_mon.Cache.Coherence.{CheckStore, KeepsCreation}
use cron_mon.World.{World}
use cron_mon.Scheduler.{
  mark_down, is_overdue, evaluate, evaluate_all, prune, cleanup_old_pings, enqueue_alerts,
}
use cron_mon.Scheduler.Persisted.{evaluate-Coherent}
use cron_mon.Scheduler.Marking.{evaluate_inv}
use cron_mon.Scheduler.Pass.{Settles, kept, marked, evaluate-Settles}
use cron_mon.Handler.Ping.{
  started, completed, alert_completion, handle_start, handle_complete, complete_or_start,
}
use cron_mon.Handler.Ping.Transitions.{started-pause_sound, completed-pause_sound}
use cron_mon.System.{Services, LeavesChecks}
use cron_mon.System.Invariant.{Inv, set-Inv, with_db-Inv, enqueue_alerts-Inv, alert_down-Inv}

mark_down-pause_sound :
    (now : Time) (c : Check)
    → is_overdue now c ≡ true
    → pause_sound c ≡ true
    → pause_sound (mark_down now c) ≡ true
unfolding mark_down is_overdue
mark_down-pause_sound now c late h = ground arith

module _ {Db : Type 0} (s : Services Db) (laws : CheckStore s.checks)
    (leaves : LeavesChecks s laws) where
  open s use {cron, checks, channels, ping_rows, trusted_proxy}

  evaluate-Inv :
      (now : Time) (w : World Db)
      → Inv s laws w
      → Inv s laws (record w { cache = (evaluate checks now (values w.cache.checks) w.cache).1 })
  evaluate-Inv now w v = record {
    keyed =
        evaluate_inv checks now (λ sc. IsKeyed sc.checks) (λ _. Unit)
          (λ c sc _. set-IsKeyed checks sc (mark_down now c)) _ w.cache (All-unit _) v.keyed;
    coherent = evaluate-Coherent laws now w.cache v.keyed v.coherent;
    fits = v.fits;
    sound = λ k c e. settles k c e (evaluate-Settles checks now w.cache v.keyed k);
  }
    where
      settles :
          (k : Text) (c : Check) {o : Option Check}
          → o ≡ some c
          → Settles now (get k w.cache) o
          → pause_sound c ≡ true
      settles k c e (kept q) = v.sound k c (sym q ∙ e)
      settles k c e (marked d found late q) =
          let eq : mark_down now d ≡ c = cc in
          rw (← eq) (mark_down-pause_sound now d late (v.sound k d found))

  pub evaluate_all-Inv :
      (now : Time) (w : World Db) → Inv s laws w → Inv s laws (evaluate_all checks channels now w)
  unfolding evaluate_all with_write_lock
  evaluate_all-Inv now w v = alert_down-Inv s laws leaves _ _ (evaluate-Inv now w v)

  rows-prune :
      (cs : List Check) (db : Db) (k : Text) → laws.rows (prune ping_rows cs db) k ≡ laws.rows db k
  unfolding prune
  rows-prune [] db k = refl
  rows-prune (c ∷ cs) db k = rows-prune cs _ k ∙ leaves.by_delete_oldest c.id _ db k

  pub cleanup-Inv : (w : World Db) → Inv s laws w → Inv s laws (cleanup_old_pings ping_rows w)
  unfolding cleanup_old_pings
  cleanup-Inv w v = with_db-Inv s laws w _ (rows-prune _ w.cache.db) v

  alert_completion-Inv :
      (r : Result Unit) (was_down is_fail : Bool) (c : Check) (w : World Db)
      → Inv s laws w
      → Inv s laws (alert_completion channels r was_down is_fail c w)
  unfolding alert_completion
  alert_completion-Inv (err e) was_down is_fail c w v = v
  alert_completion-Inv (ok a) was_down is_fail c w v =
      two_alerts was_down (is_fail && c.notify_on_fail)
    where
      two_alerts :
          (a b : Bool)
          → Inv s laws (
              let w' = (if a then enqueue_alerts channels c AlertType.up w else w) in
              if b then enqueue_alerts channels c AlertType.fail w' else w')
      two_alerts true true =
          enqueue_alerts-Inv s laws leaves c AlertType.fail _
            (enqueue_alerts-Inv s laws leaves c AlertType.up w v)
      two_alerts true false = enqueue_alerts-Inv s laws leaves c AlertType.up w v
      two_alerts false true = enqueue_alerts-Inv s laws leaves c AlertType.fail w v
      two_alerts false false = v

  complete-Inv :
      (c : Check) (now : Time) (w : World Db)
      → KeepsCreation laws c w.cache
      → is_paused c.status ≡ false
      → pause_sound c ≡ true
      → Inv s laws w
      → Inv s laws (record w { cache = (set checks (completed cron now c) w.cache).1 })
  unfolding completed
  complete-Inv c now w keeps active sound v =
      set-Inv s laws (completed cron now c) w keeps (completed-pause_sound cron now c active sound)
        v

  -- A ping for an active check, which may have been read before the state `w`.
  pub complete_or_start-Inv :
      (type : PingType) (c : Check) (now : Time) (w : World Db)
      → KeepsCreation laws c w.cache
      → is_paused c.status ≡ false
      → pause_sound c ≡ true
      → Inv s laws w
      → Inv s laws (complete_or_start cron checks channels type c now w)
  unfolding complete_or_start handle_start handle_complete started
  complete_or_start-Inv PingType.start c now w keeps active sound v =
      set-Inv s laws (started now c) w keeps (started-pause_sound now c sound) v
  complete_or_start-Inv PingType.success c now w keeps active sound v =
      alert_completion-Inv _ _ _ _ _ (complete-Inv c now w keeps active sound v)
  complete_or_start-Inv PingType.fail c now w keeps active sound v =
      alert_completion-Inv _ _ _ _ _ (complete-Inv c now w keeps active sound v)
