-- ===== src/Sqlite/Reading.antt =====
-- What reading back a row of `checks` gives: scanCheck after Create and Update of
-- internal/repository/check_repo.go.
use mathlib.Core.Option
use cron_mon.Base.{
  ◌≡◌, refl, ap, inl, inr, not, Option, none, some, List, [], ◌∷◌, map, arith, ℕ, Result, ok, err,
  Result-cases, if◌then◌else◌, ◌==◌,
}
use cron_mon.Base.Int.{pos, negsuc}
use cron_mon.Base.Text.{Text, text_eq_iff, quoted}
use cron_mon.Time.{Time}
use cron_mon.Model.{Check, status_text}
use cron_mon.Table.{Table}
use cron_mon.Sqlite.{
  ◌>>=◌, Stamp, CheckRow, format_time, instant, parse_time, parse_time_ptr, status_of_text,
}
use cron_mon.Sqlite.Checks.{check_row, scan_check, scan_all}

-- The check of a row whose times are readable.
unfoldable pub read : Text → CheckRow → Check
unfolding instant status_of_text
read id row = record {
  id = id;
  name = row.name;
  slug = row.slug;
  schedule = row.schedule;
  grace = row.grace;
  status = status_of_text row.status;
  pre_pause_status = Option.map status_of_text row.pre_pause_status;
  last_ping_at = Option.map instant row.last_ping_at;
  next_expected_at = Option.map instant row.next_expected_at;
  created_at = instant row.created_at;
  updated_at = instant row.updated_at;
  tags = row.tags;
  notify_on_fail = not (row.notify_on_fail == 0);
}

-- What a check is after it is written and read back.
unfoldable pub stored : Check → Check
unfolding read check_row
stored c = read c.id (check_row c)

-- A call that succeeded after another: both did.
pub >>=-eq-ok {ι ν} :
    {T : Type ι} {U : Type ν} (first : Result T) (next : T → Result U) {u : U}
    → (first >>= next) ≡ ok u
    → (t : T) × (first ≡ ok t) × (next t ≡ ok u)
>>=-eq-ok (err e) next done = cc
>>=-eq-ok (ok t) next done = (t, refl, done)

parse_time-instant : (s : Stamp) (t : Time) → parse_time s ≡ ok t → t ≡ instant s
unfolding parse_time
parse_time-instant s t h = ground arith

parse_time_ptr-instant :
    (s : Option Stamp) (t : Option Time) → parse_time_ptr s ≡ ok t → t ≡ Option.map instant s
unfolding parse_time_ptr
parse_time_ptr-instant none t h = cc
parse_time_ptr-instant (some s) t h = elim (Result-cases (parse_time s)) [
  | inl (a, p) ↦ cc (rw p at h, parse_time-instant s a p)
  | inr (e, p) ↦ cc (rw p at h)
]

pub scan_check-read :
    (id : Text) (row : CheckRow) (c : Check) → scan_check (id, row) ≡ ok c → c ≡ read id row
unfolding scan_check read
scan_check-read id row c h =
    let (created, p, h1) = >>=-eq-ok (parse_time row.created_at) _ h in
    let (updated, q, h2) = >>=-eq-ok (parse_time row.updated_at) _ h1 in
    let (last, r, h3) = >>=-eq-ok (parse_time_ptr row.last_ping_at) _ h2 in
    let (next, t, h4) = >>=-eq-ok (parse_time_ptr row.next_expected_at) _ h3 in
    cc (
      h4,
      parse_time-instant _ _ p,
      parse_time-instant _ _ q,
      parse_time_ptr-instant _ _ r,
      parse_time_ptr-instant _ _ t,
    )

format_time-instant : (s : Stamp) → format_time (instant s) ≡ s
unfolding format_time instant
format_time-instant (pos s) = ground arith
format_time-instant (negsuc s) = ground arith

status_text-status_of_text : (s : Text) → status_text (status_of_text s) ≡ s
unfolding status_text status_of_text
status_text-status_of_text s = ground (
  arith,
  text_eq_iff s (quoted "new"),
  text_eq_iff s (quoted "up"),
  text_eq_iff s (quoted "down"),
  text_eq_iff s (quoted "paused"),
)

stamps_back :
    (s : Option Stamp)
    → Option.map instant (Option.map format_time (Option.map instant s)) ≡ Option.map instant s
stamps_back none = refl
stamps_back (some s) = rw (format_time-instant s) refl

statuses_back :
    (s : Option Text)
    → Option.map status_of_text (Option.map status_text (Option.map status_of_text s))
      ≡ Option.map status_of_text s
statuses_back none = refl
statuses_back (some s) = rw (status_text-status_of_text s) refl

flags_back : (n : ℕ) → not ((if not (n == 0) then 1 else 0) == 0) ≡ not (n == 0)
flags_back n = ground arith

-- A check that was read from a row and is written again is read back unchanged.
pub stored-read : (id : Text) (row : CheckRow) → stored (read id row) ≡ read id row
unfolding stored read check_row
stored-read id row = cc (
  ap status_of_text (status_text-status_of_text row.status),
  statuses_back row.pre_pause_status,
  stamps_back row.last_ping_at,
  stamps_back row.next_expected_at,
  ap instant (format_time-instant row.created_at),
  ap instant (format_time-instant row.updated_at),
  flags_back row.notify_on_fail,
)

-- The rows that ListAll reads are those of the table, in its order.
pub scan_all-read :
    (m : Table CheckRow) (cs : List Check) → scan_all m ≡ ok cs → cs ≡ map (λ e. read e.0 e.1) m
unfolding scan_all
scan_all-read [] cs h = cc
scan_all-read ((id, row) ∷ m) cs h =
    let (c, p, h1) = >>=-eq-ok (scan_check (id, row)) _ h in
    let (rest, q, h2) = >>=-eq-ok (scan_all m) _ h1 in
    cc (h2, scan_check-read id row c p, scan_all-read m rest q)
