-- ===== src/Tests/Fixtures.antt =====
-- A schedule parser for two expressions, repositories in memory, and a check of the tests.
use cron_mon.Base.{
  ℕ, ◌+◌, ◌*◌, ◌/◌, ◌≡◌, ◌⊎◌, inl, inr, refl, Bool, true, false, Option, none, some, [], ◌∷◌, ok,
  err, not_found, arith, if◌then◌else◌,
}
use cron_mon.Base.Int.{pos, negsuc, ◌<ℤ◌}
use cron_mon.Base.Text.{Text, text_eq, quoted}
use cron_mon.Time.{Time, minute, second, zero_time}
use cron_mon.Model.{Check, Channel, up}
use cron_mon.Schedule.{Cron, IsCron}
use cron_mon.Repository.{CheckRepository, ChannelRepository, PingRepository}
use cron_mon.Table.{Table, put, remove, values}
use cron_mon.Alerts.{make_alert_channel}
use cron_mon.World.{World}
use cron_mon.Sqlite.{Db}
use cron_mon.Http.{Request}
use cron_mon.Config.{Config}
use cron_mon.Handler.Channel.Validation.{Library}

abbrev pub every_minute : Text
every_minute = quoted "* * * * *"

-- February 30.
abbrev pub february_30 : Text
february_30 = quoted "0 0 30 2 *"

unfoldable pub next_minute : Bool → Time → Time
next_minute true (pos n) = pos ((n / minute + 1) * minute)
next_minute true (negsuc n) = pos 0
next_minute false t = zero_time

unfoldable pub parse_expression : Text → Option Bool
unfolding text_eq
parse_expression s =
    if text_eq s every_minute then some true else if text_eq s february_30 then some false else none

abbrev pub two_expressions : Cron
two_expressions = record { Parsed = Bool; parse = parse_expression; next = next_minute }

next_minute-later : (s : Bool) (t : Time) → (t <ℤ next_minute s t) ⊎ (next_minute s t ≡ zero_time)
unfolding next_minute
next_minute-later true (pos n) = inl (omega arith)
next_minute-later true (negsuc n) = inl (omega arith)
next_minute-later false t = inr refl

pub two_expressions-IsCron : IsCron two_expressions
two_expressions-IsCron = record { next_later = next_minute-later }

-- Checks alone, in memory; no call fails.
abbrev pub memory_checks : CheckRepository (Table Check)
memory_checks = record {
  create = λ c db. (ok tt, put c.id c db);
  get_by_id = λ id db. (err not_found, db);
  list_all = λ db. (ok (values db), db);
  update = λ c db. (ok tt, put c.id c db);
  delete = λ id db. (ok tt, remove id db);
}

abbrev pub hook : Channel
hook = record {
  id = 1;
  type = quoted "webhook";
  name = quoted "ops";
  config = quoted "{}";
  created_at = pos 0;
}

-- Every check is subscribed to the hook.
abbrev pub one_channel : ChannelRepository (Table Check)
one_channel = record {
  create = λ c db. (ok 1, db);
  get_by_id = λ id db. (ok hook, db);
  list_all = λ db. (ok (hook ∷ []), db);
  delete = λ id db. (ok tt, db);
  list_by_check_id = λ id db. (ok (hook ∷ []), db);
  attach_to_check = λ id n db. (ok tt, db);
  detach_from_check = λ id n db. (ok tt, db);
}

abbrev pub no_pings : PingRepository (Table Check)
no_pings = record {
  create = λ p db. (ok tt, db);
  list_by_check_id = λ id n db. (ok [], db);
  delete_oldest = λ id n db. (ok tt, db);
}

abbrev pub backup_id : Text
backup_id = quoted "b1"

-- A check that is up and expected at the given second.
abbrev pub backup : Option Time → Check
backup expected = record {
  id = backup_id;
  name = quoted "backup";
  slug = none;
  schedule = every_minute;
  grace = pos 5;
  status = up;
  pre_pause_status = none;
  last_ping_at = none;
  next_expected_at = expected;
  created_at = pos 0;
  updated_at = pos 0;
  tags = [];
  notify_on_fail = true;
}

abbrev pub at : ℕ → Time
at n = pos (n * second)

-- The shared state with the check alone.
abbrev pub world_of : Check → World (Table Check)
world_of c = record {
  cache = record { checks = (c.id, c) ∷ []; db = (c.id, c) ∷ [] };
  alerts = make_alert_channel;
}

abbrev pub empty_db : Db
empty_db = record {
  checks = [];
  checks_distinct = tt;
  ping_rows = [];
  channels = [];
  check_channels = [];
  notifications = [];
  next_ping = 1;
  next_channel = 1;
  next_notification = 1;
  faults = [];
}

abbrev pub ping_request : Request
ping_request = record {
  method = quoted "GET";
  path = quoted "/ping/b1";
  remote_addr = quoted "203.0.113.7:5123";
  headers = [];
  basic_auth = none;
  query = [];
  body = [];
  body_bytes = 0;
  parsed = none;
}

abbrev pub settings : Config
settings = record {
  port = quoted "8080";
  db_path = quoted "cronmon.db";
  base_url = quoted "https://example.com";
  scheduler_interval = pos 30;
  admin_user = quoted "admin";
  admin_pass = quoted "secret";
  smtp_host = [];
  smtp_port = quoted "587";
  smtp_user = [];
  smtp_pass = [];
  smtp_from = [];
  smtp_tls = true;
  trusted_proxy = false;
  require_https = false;
  log_level = quoted "info";
}

-- Every config names the same endpoint, and no text is an address.
abbrev pub any_library : Library
any_library = record {
  marshal = λ field v. v;
  unmarshal = λ field config. some (quoted "https://example.com/hook");
  valid_address = λ address. true;
  parse_url = λ url. some (record {
    scheme = quoted "https";
    host = quoted "example.com";
    hostname = quoted "example.com";
    port = [];
  });
  parse_ip = λ s. none;
}
