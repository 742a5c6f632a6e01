-- ===== src/Notify/Slack.antt =====
-- internal/notify/slack.go: the Slack notifier.
use mathlib.Core.Option
use cron_mon.Base.{
  ℕ, ◌≡◌, refl, arith, String, Bool, true, not, Option, none, some, List, [], ◌∷◌, ◌++◌, ◌==◌,
  if◌then◌else◌,
}
use cron_mon.Base.Text.{Text, text_eq, quoted, trim_space}
use cron_mon.Time.{Time}
use cron_mon.Model.{AlertType, AlertEvent}
use cron_mon.Notify.Worker.{Notifier}
use cron_mon.Notify.Json.{Json, Members, member, no_member, items}
use cron_mon.Notify.Client.{Reply}
use cron_mon.Notify.Posting.{
  SendError, unreadable_body, unexpected_status, unexpected_body, Posting, Posted, answered,
  stopped, post_json,
}

-- slackField
pub record SlackField : Type 0 where
  pub title : Text
  pub value : Text
  pub short : Bool

-- slackAttachment
pub record SlackAttachment : Type 0 where
  pub color : Text
  pub fields : List SlackField

-- slackPayload
pub record SlackPayload : Type 0 where
  pub text : Text
  pub attachments : List SlackAttachment

field_json : SlackField → Json
field_json f = Json.object (
    member "title" (Json.text f.title)
      (member "value" (Json.text f.value) (member "short" (Json.bool f.short) no_member)))

attachment_json : SlackAttachment → Json
unfolding items
attachment_json a = Json.object (
    member "color" (Json.text a.color)
      (member "fields" (Json.array (items field_json a.fields)) no_member))

-- Tagged "omitempty".
attachments_json : List SlackAttachment → Members
unfolding items
attachments_json [] = no_member
attachments_json (a ∷ rest) =
    member "attachments" (Json.array (items attachment_json (a ∷ rest))) no_member

unfoldable pub payload_json : SlackPayload → Json
unfolding attachments_json attachment_json field_json items
payload_json p = Json.object (member "text" (Json.text p.text) (attachments_json p.attachments))

-- The color, the icon and the status of an alert.
unfoldable pub appearance : AlertType → Text × Text × Text
appearance AlertType.down = (quoted "#cc0000", quoted "⚠", quoted "DOWN")
appearance AlertType.fail = (quoted "#ff8c00", quoted "✗", quoted "FAILED")
appearance AlertType.up = (quoted "#007700", quoted "✓", quoted "RECOVERED")

short_field : String → Text → SlackField
short_field title value = record { title = quoted title; value = value; short = true }

module _ (env : Posting) where
  next_expected_field : Option Time → List SlackField
  unfolding short_field
  next_expected_field none = []
  next_expected_field (some t) = short_field "Next Expected" (env.rfc3339 t) ∷ []

  -- buildSlackPayload
  unfoldable pub build_slack_payload : AlertEvent → SlackPayload
  unfolding appearance short_field next_expected_field
  build_slack_payload event =
      let (color, icon, status_text) = appearance event.alert_type in
      record {
        text = icon ++ quoted " CronMon: \"" ++ event.check.name ++ quoted "\" is " ++ status_text;
        attachments =
            record {
              color = color;
              fields =
                  short_field "Check" event.check.name
                  ∷ short_field "Status" status_text
                  ∷ short_field "Schedule" event.check.schedule
                  ∷ next_expected_field event.check.next_expected_at;
            }
            ∷ [];
      }

  -- What the status and the body of the response say.
  unfoldable pub judge_read : ℕ → Option Text → Option SendError
  unfolding trim_space text_eq
  judge_read status none = some unreadable_body
  judge_read status (some raw) =
      if not (status == 200)
      then some (unexpected_status status)
      else if not (text_eq (trim_space raw) (quoted "ok"))
      then some (unexpected_body (trim_space raw))
      else none

  unfoldable pub judge : Posted → Option SendError
  unfolding judge_read
  judge (stopped error) = some error
  judge (answered reply) = judge_read reply.status (reply.read 512)

  -- Send
  unfoldable pub send : AlertEvent → Option SendError
  unfolding post_json build_slack_payload payload_json judge
  send event = judge (post_json env event (payload_json (build_slack_payload event)))

  -- As the worker calls it.
  abbrev pub slack_notifier : Notifier
  slack_notifier = record { send = λ event. Option.map env.error_text (send event) }

  read-ok : (status : ℕ) (o : Option Text) → judge_read status o ≡ none → status ≡ 200
  unfolding judge_read
  read-ok status none e = cc
  read-ok status (some raw) e = ground arith

  -- A delivery that succeeded has an answer, with status 200.
  pub judge-eq-none :
      (p : Posted) → judge p ≡ none → (reply : Reply) × (p ≡ answered reply) × (reply.status ≡ 200)
  unfolding judge
  judge-eq-none (stopped error) e = cc
  judge-eq-none (answered reply) e = (reply, refl, read-ok reply.status (reply.read 512) e)
