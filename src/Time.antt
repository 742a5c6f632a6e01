-- ===== src/Time.antt =====
-- Go's time.Time and time.Duration: nanoseconds since the Unix epoch, and int64 nanoseconds.
use cron_mon.Base.{ℕ, suc, ◌-◌, ◌*◌, ◌/◌, ◌^◌, ◌<◌, ◌≡◌, Bool, arith}
use cron_mon.Base.Int.{ℤ, pos, negsuc, ◌+ℤ◌, ◌*ℤ◌, ltb_ℤ, wrap_int64}

abbrev pub Time : Type 0
Time = ℤ

abbrev pub Duration : Type 0
Duration = ℤ

abbrev pub second : ℕ
second = 1_000_000_000

abbrev pub minute : ℕ
minute = 60 * second

-- The zero time.Time, January 1 of the year 1.
abbrev pub zero_time : Time
zero_time = negsuc (62_135_596_800 * second - 1)

-- t.After(u)
abbrev pub after : Time → Time → Bool
after t u = ltb_ℤ u t

-- t.Add(d)
abbrev pub add : Time → Duration → Time
add t d = t +ℤ d

-- time.Duration(n) * time.Minute: the int64 product wraps.
unfoldable pub minutes : ℤ → Duration
unfolding ◌*ℤ◌ wrap_int64
minutes n = wrap_int64 (n *ℤ pos minute)

-- time.Duration(n) * time.Second
unfoldable pub seconds : ℤ → Duration
unfolding ◌*ℤ◌ wrap_int64
seconds n = wrap_int64 (n *ℤ pos second)

-- What remains of a time after formatting it as RFC3339 and parsing it again: whole seconds.
unfoldable pub truncate_to_seconds : Time → Time
truncate_to_seconds (pos n) = pos (n / second * second)
truncate_to_seconds (negsuc n) = negsuc (suc (n / second) * second - 1)

pub truncate_to_seconds_idem :
    (t : Time) → truncate_to_seconds (truncate_to_seconds t) ≡ truncate_to_seconds t
unfolding truncate_to_seconds
truncate_to_seconds_idem (pos n) = ground arith
truncate_to_seconds_idem (negsuc n) = ground arith

pub minutes_exact : (n : ℕ) → n < 153_722_868 → minutes (pos n) ≡ pos (n * minute)
unfolding minutes
minutes_exact n h = ground arith

pub minutes_wraps :
    (n : ℕ) → 153_722_867 < n → n < 307_445_735 → (k : ℕ) × (minutes (pos n) ≡ negsuc k)
unfolding minutes
minutes_wraps n h k = (2 ^ 64 - 1 - n * minute, ground arith)
