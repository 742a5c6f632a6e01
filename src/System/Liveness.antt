-- ===== src/System/Liveness.antt =====
-- From an overdue check to its delivered alert: a pass of internal/scheduler/scheduler.go and the
-- worker of internal/notify/worker.go.
use mathlib.Core.List.{Memᴰ}
use mathlib.Core.List.Memᴰ
use cron_mon.Base.{
  ℕ, zero, suc, ◌-◌, ◌≡◌, ◌≤◌, ◌<◌, ◌∙◌, ap, refl, inl, inr, true, some, List, [], ◌∷◌, ◌++◌, map,
  arith, length, take, length-append, Bool-cases,
}
use cron_mon.Base.Text.{Text, text_eq}
use cron_mon.Time.{Time}
use cron_mon.Model.{Check, Channel, Status, AlertType, AlertEvent}
use cron_mon.Table.{Table, lookup, values}
use cron_mon.Cache.{get}
use cron_mon.Cache.Keys.{IsKeyed}
use cron_mon.Alerts.{alert_event}
use cron_mon.World.{World}
use cron_mon.Scheduler.{is_overdue, mark_down, evaluate_all}
use cron_mon.Scheduler.Calls.{Updates, Queries}
use cron_mon.Scheduler.Pass.{downs}
use cron_mon.Scheduler.Alerting.{down_events, queue-evaluate_all, get-evaluate_all}
use cron_mon.System.{Services}
use cron_mon.System.Draining.{stamped, deliver_all, work_off, drained, work_off-rounds}

lookup-Memᴰ : (k : Text) (m : Table Check) {c : Check} → lookup k m ≡ some c → Memᴰ c (values m)
unfolding lookup
lookup-Memᴰ k [] = λ h. cc
lookup-Memᴰ k ((j, d) ∷ m) {c} = elim (Bool-cases (text_eq j k)) [
  | inl e ↦ rw e (λ h. Memᴰ.head (let same : c ≡ d = cc in same))
  | inr e ↦ rw e (λ h. Memᴰ.tail (lookup-Memᴰ k m h))
]

downs-Memᴰ :
    (now : Time) (cs : List Check) {c : Check}
    → is_overdue now c ≡ true
    → Memᴰ c cs
    → Memᴰ (mark_down now c) (downs now cs)
unfolding downs
downs-Memᴰ now [] late m = elim m [ ]
downs-Memᴰ now (d ∷ cs) late (Memᴰ.head e) =
    let late' : is_overdue now d ≡ true = rw (← e) late in
    rw late' (Memᴰ.head (ap (mark_down now) e))
downs-Memᴰ now (d ∷ cs) late (Memᴰ.tail m) = elim (Bool-cases (is_overdue now d)) [
  | inl p ↦ rw p (Memᴰ.tail (downs-Memᴰ now cs late m))
  | inr p ↦ rw p (downs-Memᴰ now cs late m)
]

down_events-Memᴰ :
    (subscribed : Text → List Channel) (cs : List Check) {c : Check} {ch : Channel}
    → Memᴰ c cs
    → Memᴰ ch (subscribed c.id)
    → Memᴰ (alert_event c AlertType.down ch) (down_events subscribed cs)
down_events-Memᴰ subscribed [] m n = elim m [ ]
down_events-Memᴰ subscribed (d ∷ cs) {c} {ch} (Memᴰ.head e) n =
    let here : Memᴰ (alert_event c AlertType.down ch)
        (map (alert_event d AlertType.down) (subscribed d.id)) =
      rw (← e) (Memᴰ.map (alert_event c AlertType.down) n) in
    Memᴰ.append_left (down_events subscribed cs) here
down_events-Memᴰ subscribed (d ∷ cs) (Memᴰ.tail m) n =
    Memᴰ.append_right _ (down_events-Memᴰ subscribed cs m n)

take_all {ℓ} : {A : Type ℓ} (n : ℕ) (xs : List A) → length xs ≤ n → take n xs ≡ xs
take_all zero [] h = refl
take_all zero (x ∷ xs) h = ground arith
take_all (suc n) [] h = refl
take_all (suc n) (x ∷ xs) h = ap (λ l. x ∷ l) (take_all n xs (omega arith))

module _ {Db : Type 0} (s : Services Db) (clock : ℕ → Time) (subscribed : Text → List Channel) where
  -- The events that a pass would queue on an unbounded channel.
  abbrev pub due : Time → World Db → List AlertEvent
  due now w = down_events subscribed (downs now (values w.cache.checks))

  -- What becomes of the overdue check under `k`: it is down, and once the worker has worked off the
  -- channel, the alert to `ch` is among the events that were delivered.
  pub record Alerted (now : Time) (w : World Db) (k : Text) (c : Check) (ch : Channel)
      : Type 0 where
    pub after : World Db
    pub ended :
        work_off s clock (suc w.alerts.capacity) (evaluate_all s.checks s.channels now w)
        ≡ some after
    pub emptied : after.alerts.queue ≡ []
    pub down : get k after.cache ≡ some (mark_down now c)
    pub taken : (mark_down now c).status ≡ Status.down
    pub delivered :
        Memᴰ (alert_event (mark_down now c) AlertType.down ch) (w.alerts.queue ++ due now w)
    pub database :
        after.cache.db
        ≡ deliver_all s clock
            (stamped (suc w.alerts.capacity) clock (w.alerts.queue ++ due now w))
            (evaluate_all s.checks s.channels now w).cache.db

  -- An overdue check in a cache that is keyed by ID is down after the next pass, and a subscribed
  -- channel gets its alert from the worker, which empties the channel in finitely many rounds; if
  -- each update of a check and each query for channels that the pass makes succeeds, and there is
  -- room for the waiting alerts and those that are due.
  pub evaluate_all-Alerted :
      (now : Time) (w : World Db) (k : Text) (c : Check) (ch : Channel)
      → IsKeyed w.cache.checks
      → get k w.cache ≡ some c
      → is_overdue now c ≡ true
      → Memᴰ ch (subscribed c.id)
      → length (w.alerts.queue ++ due now w) ≤ w.alerts.capacity
      → Updates s.checks now w
      → Queries s.channels subscribed s.checks now w
      → Alerted now w k c ch
  unfolding drained get mark_down
  evaluate_all-Alerted now w k c ch keyed found late channel room works queried =
      let w1 = evaluate_all s.checks s.channels now w in
      let n = suc w.alerts.capacity in
      let all = w.alerts.queue ++ due now w in
      let fit : length (due now w) ≤ w.alerts.capacity - length w.alerts.queue =
        omega (arith, length-append w.alerts.queue (due now w)) in
      let queued : w1.alerts.queue ≡ all =
        queue-evaluate_all s.checks s.channels now w works subscribed queried
        ∙ ap (λ l. w.alerts.queue ++ l) (take_all _ (due now w) fit) in
      let few : length w1.alerts.queue < n = rw queued (omega arith) in
      let marked : get k w1.cache ≡ some (mark_down now c) =
        get-evaluate_all s.checks s.channels now w works keyed k ∙ rw (found, late) refl in
      record {
        after = drained s clock n w1;
        ended = work_off-rounds s clock n w1.alerts.queue w1.alerts.capacity w1 few;
        emptied = refl;
        down = marked;
        taken = refl;
        delivered = Memᴰ.append_right w.alerts.queue (
            down_events-Memᴰ subscribed _
              (downs-Memᴰ now (values w.cache.checks) late (lookup-Memᴰ k w.cache.checks found))
              channel);
        database = ap (λ events. deliver_all s clock (stamped n clock events) w1.cache.db) queued;
      }
