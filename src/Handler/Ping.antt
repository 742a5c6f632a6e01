-- ===== src/Handler/Ping.antt =====
-- internal/handler/ping.go: the three ping endpoints. Log output is left out.
pub mod Transitions
pub mod Cases
pub mod Effects
pub mod Deadlines
pub mod Race
pub mod Alerting
use cron_mon.Base.{
  ℕ, Bool, true, false, not, ◌&&◌, ◌||◌, Option, none, some, List, [], ◌∷◌, Result, ok, err, ◌==◌,
  if◌then◌else◌,
}
use cron_mon.Base.Text.{Text, is_empty, cut, trim_space}
use cron_mon.Time.{Time, add, minutes}
use cron_mon.Model.{Check, Ping, PingType, Status, AlertType, is_up, is_down, is_new, is_paused}
use cron_mon.Schedule.{Cron, next_expected_at}
use cron_mon.Repository.{CheckRepository, ChannelRepository, PingRepository}
use cron_mon.Cache.{StateCache, set, get}
use cron_mon.World.{World, with_db}
use cron_mon.Scheduler.{enqueue_alerts}
use cron_mon.Net.{split_host_port}
use cron_mon.Http.{Request, Response, ok_text, header_value}

-- The text before the first comma.
first_of_list : Text → Text
first_of_list xff = elim (cut b',' xff) [ none ↦ xff | some p ↦ p.0 ]

host_of : Text → Text
host_of remote_addr = elim (split_host_port remote_addr) [ none ↦ remote_addr | some p ↦ p.0 ]

unfoldable pub extract_source_ip : Bool → Request → Text
unfolding first_of_list host_of
extract_source_ip trusted_proxy r =
    let xff = header_value "X-Forwarded-For" r in
    if trusted_proxy && not (is_empty xff)
    then trim_space (first_of_list xff)
    else host_of r.remote_addr

-- Strips line feeds and carriage returns.
unfoldable pub log_safe : Text → Text
log_safe [] = []
log_safe (c ∷ s) = let rest = log_safe s in if c == 10 || c == 13 then rest else c ∷ rest

-- The check that handleStart writes: a new deadline, and the same status.
unfoldable pub started : Time → Check → Check
started now c = record c { next_expected_at = some (add now (minutes c.grace)); updated_at = now }

or_else : Option Time → Option Time → Option Time
or_else none old = old
or_else (some t) old = some t

-- The check that handleComplete writes. A deadline that cannot be computed stays as it was.
unfoldable pub completed : Cron → Time → Check → Check
unfolding or_else
completed cron now c = record c {
  status = if is_new c.status || is_down c.status then Status.up else c.status;
  last_ping_at = some now;
  next_expected_at = or_else (next_expected_at cron c.schedule c.grace now) c.next_expected_at;
  updated_at = now;
}

module _ {Db : Type 0} (checks : CheckRepository Db) where
  unfoldable pub handle_start : Check → Time → World Db → World Db
  handle_start c now w = record w { cache = (set checks (started now c) w.cache).1 }

module _ {Db : Type 0} (channels : ChannelRepository Db) where
  -- The alerts at the end of handleComplete, after a write that succeeded.
  unfoldable pub alert_completion : Result (Unit {0}) → Bool → Bool → Check → World Db → World Db
  alert_completion (err e) was_down is_fail c w = w
  alert_completion (ok _) was_down is_fail c w =
      let recovered = if was_down then enqueue_alerts channels c AlertType.up w else w in
      if is_fail && c.notify_on_fail
      then enqueue_alerts channels c AlertType.fail recovered
      else recovered

module _ (cron : Cron) {Db : Type 0} (checks : CheckRepository Db)
    (channels : ChannelRepository Db) where
  unfoldable pub handle_complete : Check → Time → Bool → World Db → World Db
  handle_complete c now is_fail w =
      let c' = completed cron now c in
      let (r, sc) = set checks c' w.cache in
      alert_completion channels r (is_down c.status) is_fail c' (record w { cache = sc })

  -- The switch on the ping's type.
  unfoldable pub complete_or_start : PingType → Check → Time → World Db → World Db
  complete_or_start PingType.start c now w = handle_start checks c now w
  complete_or_start PingType.success c now w = handle_complete c now false w
  complete_or_start PingType.fail c now w = handle_complete c now true w

module _ {Db : Type 0} (pings : PingRepository Db) (trusted_proxy : Bool) where
  -- A ping that is not recorded is only logged; the ID of the new row is chosen by the database.
  unfoldable pub record_ping : Check → PingType → Time → Request → World Db → World Db
  record_ping c type now r w =
      let ping : Ping = record {
        id = 0;
        check_id = c.id;
        type = type;
        created_at = now;
        source_ip = extract_source_ip trusted_proxy r;
      } in
      with_db w (pings.create ping w.cache.db).1

module _ (cron : Cron) {Db : Type 0} (checks : CheckRepository Db) (channels : ChannelRepository Db)
    (pings : PingRepository Db) (trusted_proxy : Bool) where
  unfoldable pub handle_known : Option Check → PingType → Time → Request → World Db → World Db
  handle_known none type now r w = w
  handle_known (some c) type now r w =
      if is_paused c.status
      then w
      else record_ping pings trusted_proxy c type now r
          (complete_or_start cron checks channels type c now w)

  -- handle: every answer is 200 "OK".
  unfoldable pub handle : Text → PingType → Time → Request → World Db → Response × World Db
  unfolding handle_known
  handle uuid type now r w = (ok_text, handle_known (get uuid w.cache) type now r w)
