-- ===== src/Notify/Email/Sending.antt =====
-- Send of the e-mail notifier in internal/notify/email.go.
use mathlib.Core.Option
use cron_mon.Base.{Bool, Option, none, some, List, [], if◌then◌else◌}
use cron_mon.Base.Text.{Text, is_empty}
use cron_mon.Time.{Time}
use cron_mon.Model.{AlertEvent}
use cron_mon.Handler.Channel.Validation.{Library}
use cron_mon.Notify.Worker.{Notifier}
use cron_mon.Notify.Email.Content.{build_subject, build_bodies}
use cron_mon.Notify.Email.Message.{Printers, build_mime_message}
use cron_mon.Notify.Email.Smtp.{EmailConfig, Call, SmtpError, send_smtp}

-- Why Send fails.
pub data EmailError : Type 0 where
  unreadable_config missing_address bad_header : EmailError
  undelivered : SmtpError → EmailError

-- What surrounds the notifier: package json, net and time, the server, and the context.
pub record Mailing : Type 0 where
  pub lib : Library
  pub printers : Printers
  pub rfc3339 : Time → Text
  pub fails : Call → Bool
  pub deadline : Bool
  -- The text of an error.
  pub error_text : EmailError → Text

module _ (env : Mailing) (cfg : EmailConfig) where
  deliver : Text → Option Text → List Call × Option EmailError
  deliver to none = ([], some bad_header)
  deliver to (some message) =
      let d = send_smtp env.fails env.lib.parse_ip env.deadline cfg to message in
      (d.0, Option.map undelivered d.1)

  compose : Time → AlertEvent → Text → Option Text
  unfolding build_subject build_bodies build_mime_message
  compose now event to =
      let bodies = build_bodies env.rfc3339 cfg.base_url event in
      build_mime_message env.printers now cfg.from to
        (build_subject event.alert_type event.check.name) bodies.0 bodies.1

  -- Send at the time `now`: the calls that it makes, and its error.
  unfoldable pub send : Time → AlertEvent → List Call × Option EmailError
  unfolding deliver compose
  send now event = elim (env.lib.unmarshal "address" event.channel.config) [
    | none ↦ ([], some unreadable_config)
    | some to ↦
        if is_empty to then ([], some missing_address) else deliver to (compose now event to)
  ]

  -- As the worker calls it.
  abbrev pub email_notifier : Time → Notifier
  email_notifier now = record { send = λ event. Option.map env.error_text (send now event).1 }
