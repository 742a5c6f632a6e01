-- ===== src/Tests/Posting.antt =====
-- The theorem on what main.go's notifiers deliver at a concrete input.
use cron_mon.Base.{◌≡◌, refl, true, false, Option, none, some, [], ◌∷◌}
use cron_mon.Base.Text.{Text, quoted}
use cron_mon.Model.{AlertType, AlertEvent}
use cron_mon.Alerts.{alert_event}
use cron_mon.Table.{lookup}
use cron_mon.Net.{split_host_port}
use cron_mon.Notify.Ip.{is_private_ip}
use cron_mon.Notify.Ssrf.{Dialed, connected, dial_context}
use cron_mon.Notify.Worker.{outcome}
use cron_mon.Notify.Client.{Reply, NeedsConnection, Network, new_ssrf_safe_client}
use cron_mon.Notify.Posting.{Posting, post_json}
use cron_mon.Notify.Webhook.{send}
use cron_mon.Notify.Email.Sending.{Mailing}
use cron_mon.Main.Notifiers.{build_notifiers, Delivered, outcome-Delivered}
use cron_mon.Tests.Fixtures.{any_library, backup, at, hook, settings}

over : Dialed → Text → Option Reply
over (connected addr) url = some (record { status = 204; read = λ n. some []; urls = url ∷ [] })
over _ url = none

over-connected :
    (d : Dialed) (url : Text) (reply : Reply)
    → over d url ≡ some reply
    → (reply.urls ≡ url ∷ []) × (addr : Text) × (d ≡ connected addr)
unfolding over
over-connected (connected addr) url reply e = (cc, addr, refl)
over-connected Dialed.bad_address url reply e = cc
over-connected Dialed.unresolved url reply e = cc
over-connected Dialed.no_addresses url reply e = cc
over-connected Dialed.resolves_to_private url reply e = cc
over-connected Dialed.undialed url reply e = cc

abbrev one_network : Network
one_network = record {
  parse_ip = λ s. some (203 ∷ 0 ∷ 113 ∷ 7 ∷ []);
  resolve = λ host. some (quoted "203.0.113.7" ∷ []);
  cancelled = λ ips. false;
  connects = λ addr. true;
  dial_target = λ url. quoted "example.com:443";
  exchange = λ dial post. over (dial (quoted "example.com:443")) post.url;
}

one_network-NeedsConnection : NeedsConnection one_network
one_network-NeedsConnection dial post reply e =
    let c = over-connected _ post.url reply e in (([], c.0), rw c.0 ((c.1, c.2), tt))

abbrev posting : Posting
posting = record {
  lib = any_library;
  network = one_network;
  print = λ json. some (quoted "{}");
  rfc3339 = λ t. quoted "1970-01-01T00:01:40Z";
  rfc3339_nano = λ t. quoted "1970-01-01T00:01:40Z";
  error_text = λ e. quoted "failed";
}

abbrev mailing : Mailing
mailing = record {
  lib = any_library;
  printers = record { rfc1123z = λ t. []; q_encode = λ s. s; decimal = λ n. [] };
  rfc3339 = posting.rfc3339;
  fails = λ c. false;
  deadline = true;
  error_text = λ e. quoted "failed";
}

abbrev down_event : AlertEvent
down_event = alert_event (backup none) AlertType.down hook

outcome-Delivered_example : Delivered mailing posting down_event
unfolding build_notifiers outcome lookup send post_json new_ssrf_safe_client dial_context
    split_host_port over is_private_ip
outcome-Delivered_example =
    outcome-Delivered mailing posting (λ t. t) (at 100) settings down_event
      one_network-NeedsConnection refl refl
