-- ===== src/Schedule.antt =====
-- internal/schedule/schedule.go: 5-field cron expressions. The parser robfig/cron/v3 is the
-- parameter `Cron`; `none` stands for a returned error.
pub mod Deadline
use cron_mon.Base.{◌≡◌, ◌⊎◌, Bool, Option, none, some, is_some, ◌>>=◌, if◌then◌else◌}
use cron_mon.Base.Int.{ℤ, ◌<ℤ◌}
use cron_mon.Base.Text.{Text, is_empty, trim_space}
use cron_mon.Time.{Time, zero_time, add, minutes}

-- cron.Parser.Parse and cron.Schedule.Next, for the five fields.
pub record Cron : Type 1 where
  pub Parsed : Type 0
  pub parse : Text → Option Parsed
  pub next : Parsed → Time → Time

-- What robfig/cron documents of Next: a later activation time, or the zero time if none is found.
pub record IsCron (cron : Cron) : Type 0 where
  pub next_later : (s : cron.Parsed) (t : Time) → (t <ℤ cron.next s t) ⊎ (cron.next s t ≡ zero_time)

module _ (cron : Cron) where
  open cron use {Parsed, parse, next}

  unfoldable pub parse_schedule : Text → Option Parsed
  parse_schedule expr =
      let trimmed = trim_space expr in if is_empty trimmed then none else parse trimmed

  -- Validate: whether the expression is accepted.
  unfoldable pub validate : Text → Bool
  validate expr = is_some (parse_schedule expr)

  unfoldable pub next_after : Text → Time → Option Time
  next_after expr t = do s ← parse_schedule expr; some (next s t)

  unfoldable pub next_expected_at : Text → ℤ → Time → Option Time
  next_expected_at expr grace ref = do t ← next_after expr ref; some (add t (minutes grace))
