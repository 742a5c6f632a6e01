-- ===== src/Schedule/Deadline.antt =====
-- The deadlines that `next_expected_at` of internal/schedule/schedule.go computes.
use cron_mon.Base.{
  ℕ, ◌*◌, ◌<◌, ◌≡◌, ap, ◌⊎◌, inl, inr, some, is_some, arith, >>=-eq-some, Option-cases,
}
use cron_mon.Base.Int.{ℤ, pos, ◌<ℤ◌, ◌+ℤ◌, +ℤ_parts}
use cron_mon.Base.Text.{Text}
use cron_mon.Time.{Time, zero_time, add, minute, minutes, minutes_exact, minutes_wraps}
use cron_mon.Schedule.{Cron, IsCron, parse_schedule, validate, next_after, next_expected_at}

module _ (cron : Cron) (expr : Text) where
  -- A successful call has parsed the expression, and adds the grace to the next activation.
  next_expected_at-eq-some :
      (grace : ℤ) (ref t : Time)
      → next_expected_at cron expr grace ref ≡ some t
      → (s : cron.Parsed) × (t ≡ add (cron.next s ref) (minutes grace))
  unfolding next_expected_at next_after
  next_expected_at-eq-some grace ref t e =
      let (n, p, q) = >>=-eq-some (next_after cron expr ref) _ e in
      let (s, _, r) = >>=-eq-some (parse_schedule cron expr) _ p in (s, cc)

  -- Validate accepts an expression exactly if NextExpectedAt has a deadline for it, for every
  -- grace and reference time.
  pub validate-next_expected_at :
      (grace : ℤ) (ref : Time) → validate cron expr ≡ is_some (next_expected_at cron expr grace ref)
  unfolding validate next_expected_at next_after
  validate-next_expected_at grace ref = elim (Option-cases (parse_schedule cron expr)) [
    | inl p ↦ rw p
    | inr (s, p) ↦ rw p
  ]

  module _ (lawful : IsCron cron) (g : ℕ) (ref t : Time) where
    -- With a cron library that keeps what it documents and at most 153,722,867 minutes of grace, a
    -- deadline lies more than the grace period after the reference time, or it is the grace period
    -- after the zero time.
    pub next_expected_at_later :
        g < 153_722_868
        → next_expected_at cron expr (pos g) ref ≡ some t
        → (ref +ℤ pos (g * minute) <ℤ t) ⊎ (t ≡ zero_time +ℤ pos (g * minute))
    next_expected_at_later small e =
        let (s, deadline) = next_expected_at-eq-some (pos g) ref t e in
        rw deadline (
          rw (minutes_exact g small) (elim (lawful.next_later s ref) [
            | inl later ↦ inl (omega (arith, +ℤ_parts))
            | inr never ↦ inr (ap (λ n. n +ℤ pos (g * minute)) never)
          ]))

  -- From 153,722,868 to 307,445,734 minutes of grace the product with time.Minute wraps to a
  -- negative duration: the deadline lies before the activation that it should extend.
  pub next_expected_at_overflow :
      (g : ℕ) (ref n t : Time)
      → 153_722_867 < g
      → g < 307_445_735
      → next_after cron expr ref ≡ some n
      → next_expected_at cron expr (pos g) ref ≡ some t
      → t <ℤ n
  unfolding next_expected_at
  next_expected_at_overflow g ref n t low high p e =
      let (k, wraps) = minutes_wraps g low high in
      let deadline : t ≡ add n (minutes (pos g)) = cc in
      rw deadline (rw wraps (omega (arith, +ℤ_parts)))
