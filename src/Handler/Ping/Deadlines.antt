-- ===== src/Handler/Ping/Deadlines.antt =====
-- The deadline that a ping of internal/handler/ping.go sets, as the scheduler will read it.
use cron_mon.Base.{
  ℕ, ◌*◌, ◌<◌, ◌≡◌, ◌≢◌, refl, inl, inr, Bool, true, false, some, arith, ◌&&◌, if◌then◌else◌, ◌||◌,
}
use cron_mon.Base.Int.{pos, ◌+ℤ◌, ◌≤ℤ◌, ◌<ℤ◌, ltb_ℤ}
use cron_mon.Time.{Time, zero_time, minute, minutes_exact}
use cron_mon.Model.{Check, Status, is_new, is_up, is_down}
use cron_mon.Schedule.{Cron, IsCron, parse_schedule, validate, next_after, next_expected_at}
use cron_mon.Schedule.Deadline.{next_expected_at_later}
use cron_mon.Scheduler.{is_overdue}
use cron_mon.Handler.Ping.{started, completed}

not_after : (later t : Time) → later ≤ℤ t → ltb_ℤ t later ≡ false
not_after later t h = ground arith

and_false : (b : Bool) → (b && false) ≡ false
and_false true = refl
and_false false = refl

is_after : (t later : Time) → t <ℤ later → ltb_ℤ t later ≡ true
is_after t later h = ground arith

up_after :
    (s : Status)
    → is_new s || is_down s || is_up s ≡ true
    → (is_up (if is_new s || is_down s then Status.up else s) && true) ≡ true
up_after s h = ground arith

module _ (cron : Cron) (c : Check) (g : ℕ) (now later : Time) where
  -- With a cron library that keeps what it documents, a grace of at most 153,722,867 minutes and
  -- an expression that fires, a check that has just pinged is not overdue until its grace period
  -- after the ping has passed.
  pub is_overdue-completed :
      IsCron cron
      → (t : Time) → c.grace ≡ pos g
      → g < 153_722_868
      → next_expected_at cron c.schedule c.grace now ≡ some t
      → t ≢ zero_time +ℤ pos (g * minute)
      → later ≤ℤ now +ℤ pos (g * minute)
      → is_overdue later (completed cron now c) ≡ false
  unfolding is_overdue completed
  is_overdue-completed lawful t grace small next fires soon =
      rw (next, not_after later t beyond) (and_false _)
    where
      beyond : later ≤ℤ t
      beyond =
          elim (next_expected_at_later cron c.schedule lawful g now t small (rw grace at next)) [
            | inl after_grace ↦ omega arith
            | inr never ↦ absurd (fires never)
          ]

  -- With a grace of at most 153,722,867 minutes, a check is not overdue until its grace period
  -- after a start ping has passed, whatever its schedule.
  pub is_overdue-started :
      c.grace ≡ pos g
      → g < 153_722_868
      → later ≤ℤ now +ℤ pos (g * minute)
      → is_overdue later (started now c) ≡ false
  unfolding is_overdue started
  is_overdue-started grace small soon =
      rw grace (rw (minutes_exact g small) (rw (not_after later _ soon) (and_false _)))

  -- An expression for which the cron library finds no activation passes Validate. A check with
  -- such an expression, the status new, down or up and at most 153,722,867 minutes of grace is,
  -- after a ping that completes it, overdue at every time later than that grace after the zero
  -- time.
  pub never_fires-is_overdue :
      (s : cron.Parsed)
      → parse_schedule cron c.schedule ≡ some s
      → cron.next s now ≡ zero_time
      → c.grace ≡ pos g
      → g < 153_722_868
      → is_new c.status || is_down c.status || is_up c.status ≡ true
      → zero_time +ℤ pos (g * minute) <ℤ later
      → (validate cron c.schedule ≡ true) × (is_overdue later (completed cron now c) ≡ true)
  unfolding is_overdue completed validate next_expected_at next_after
  never_fires-is_overdue s parsed never grace small active past = (
    rw parsed,
    rw (parsed, never, grace, minutes_exact g small, is_after _ later past)
        (up_after c.status active),
  )
