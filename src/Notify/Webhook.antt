-- ===== src/Notify/Webhook.antt =====
-- internal/notify/webhook.go: the notifier of a generic endpoint.
use mathlib.Core.Option
use cron_mon.Base.{◌≡◌, ◌≤◌, ◌<◌, refl, arith, ◌||◌, Option, none, some, leb, ltb, if◌then◌else◌}
use cron_mon.Base.Text.{Text}
use cron_mon.Time.{Time}
use cron_mon.Model.{AlertEvent, status_text, alert_type_text}
use cron_mon.Notify.Worker.{Notifier}
use cron_mon.Notify.Json.{Json, member, no_member, optional_member}
use cron_mon.Notify.Client.{Reply}
use cron_mon.Notify.Posting.{
  SendError, unexpected_status, Posting, Posted, answered, stopped, post_json,
}

-- webhookCheck
pub record WebhookCheck : Type 0 where
  pub id : Text
  pub name : Text
  pub schedule : Text
  pub status : Text
  pub next_expected_at : Option Time

-- webhookPayload
pub record WebhookPayload : Type 0 where
  pub alert_type : Text
  pub check : WebhookCheck
  pub sent_at : Time

-- The payload of an event that is sent at `now`.
unfoldable pub payload : Time → AlertEvent → WebhookPayload
unfolding alert_type_text status_text
payload now event = record {
  alert_type = alert_type_text event.alert_type;
  check = record {
    id = event.check.id;
    name = event.check.name;
    schedule = event.check.schedule;
    status = status_text event.check.status;
    next_expected_at = event.check.next_expected_at;
  };
  sent_at = now;
}

module _ (env : Posting) where
  time_json : Time → Json
  time_json t = Json.text (env.rfc3339_nano t)

  check_json : WebhookCheck → Json
  unfolding optional_member time_json
  check_json c = Json.object (
      member "id" (Json.text c.id) (
        member "name" (Json.text c.name) (
          member "schedule" (Json.text c.schedule) (
            member "status" (Json.text c.status)
              (optional_member "next_expected_at" time_json c.next_expected_at no_member)))))

  unfoldable pub payload_json : WebhookPayload → Json
  unfolding check_json time_json
  payload_json p = Json.object (
      member "alert_type" (Json.text p.alert_type)
        (member "check" (check_json p.check) (member "sent_at" (time_json p.sent_at) no_member)))

  -- What the status of the response says.
  unfoldable pub judge : Posted → Option SendError
  judge (stopped error) = some error
  judge (answered reply) =
      if ltb reply.status 200 || leb 300 reply.status
      then some (unexpected_status reply.status)
      else none

  -- Send at the time `now`.
  unfoldable pub send : Time → AlertEvent → Option SendError
  unfolding payload post_json payload_json judge
  send now event = judge (post_json env event (payload_json (payload now event)))

  -- As the worker calls it.
  abbrev pub webhook_notifier : Time → Notifier
  webhook_notifier now = record { send = λ event. Option.map env.error_text (send now event) }

  -- A delivery that succeeded has an answer, with a 2xx status.
  pub judge-eq-none :
      (p : Posted)
      → judge p ≡ none
      → (reply : Reply) × (p ≡ answered reply) × (200 ≤ reply.status) × (reply.status < 300)
  unfolding judge
  judge-eq-none (stopped error) e = cc
  judge-eq-none (answered reply) e = (reply, refl, ground arith, ground arith)
