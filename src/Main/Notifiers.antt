-- ===== src/Main/Notifiers.antt =====
-- buildNotifiers of main.go, and what it means that the worker reports an event as delivered.
use mathlib.Core.Option
use cron_mon.Base.{
  All, List, ◌≡◌, refl, inl, inr, ◌≤◌, ◌<◌, false, not, ◌&&◌, Option, none, some, [], ◌∷◌, ◌++◌,
  arith, if◌then◌else◌, Bool-cases,
}
use cron_mon.Base.Text.{Text, text_eq, is_empty, quoted}
use cron_mon.Time.{Time}
use cron_mon.Model.{AlertEvent}
use cron_mon.Config.{Config}
use cron_mon.Table.{Table, lookup}
use cron_mon.Notify.Worker.{Notifier, outcome}
use cron_mon.Notify.Json.{Json}
use cron_mon.Notify.Client.{
  Post, Reply, NeedsConnection, new_ssrf_safe_client, Reached, new_ssrf_safe_client-Reached,
}
use cron_mon.Notify.Posting.{SendError, Posting, Posted, post_json, PostOf, post_json-answered}
use cron_mon.Notify.Email.Smtp.{EmailConfig}
use cron_mon.Notify.Email.Sending.{Mailing, email_notifier}
use cron_mon.Notify.Slack.{slack_notifier, build_slack_payload}
use cron_mon.Notify.Slack as Slack
use cron_mon.Notify.Webhook.{webhook_notifier, payload}
use cron_mon.Notify.Webhook as Webhook

unfoldable pub email_config : Config → EmailConfig
email_config cfg = record {
  host = cfg.smtp_host;
  port = cfg.smtp_port;
  user = cfg.smtp_user;
  pass = cfg.smtp_pass;
  from = cfg.smtp_from;
  tls = cfg.smtp_tls;
  base_url = cfg.base_url;
}

module _ (mailing : Mailing) (posting : Posting) where
  -- E-mail is offered only if a host and a sender are configured.
  email_entry : Time → Config → Table Notifier
  unfolding email_config
  email_entry now cfg =
      if not (is_empty cfg.smtp_host) && not (is_empty cfg.smtp_from)
      then (quoted "email", email_notifier mailing (email_config cfg) now) ∷ []
      else []

  -- buildNotifiers; the notifiers send at the time `now`.
  unfoldable pub build_notifiers : Time → Config → Table Notifier
  unfolding email_entry
  build_notifiers now cfg =
      email_entry now cfg
      ++ (quoted "slack", slack_notifier posting)
        ∷ (quoted "webhook", webhook_notifier posting now)
        ∷ []

  -- The event was posted to the URL of its channel, and the response was a success. The request,
  -- and each that a redirect led to, went over a connection to an address that the host of its URL
  -- resolved to, and neither this nor any other address of the host is private.
  pub record Delivered (event : AlertEvent) : Type 0 where
    pub payload : Json
    pub post : Post
    pub reply : Reply
    pub posted : PostOf posting event payload post
    pub answered : new_ssrf_safe_client posting.network post ≡ some reply
    pub accepted : (200 ≤ reply.status) × (reply.status < 300)
    pub redirects : List Text
    pub requested : reply.urls ≡ post.url ∷ redirects
    pub reached : All (λ url. Reached posting.network (posting.network.dial_target url)) reply.urls

  posted-Delivered :
      (event : AlertEvent) (payload : Json) (reply : Reply)
      → NeedsConnection posting.network
      → post_json posting event payload ≡ Posted.answered reply
      → 200 ≤ reply.status
      → reply.status < 300
      → Delivered event
  posted-Delivered event payload reply sound e low high =
      let p = post_json-answered posting event payload reply e in
      let r = new_ssrf_safe_client-Reached posting.network p.0 reply sound p.2 in
      record {
        payload = payload;
        post = p.0;
        reply = reply;
        posted = p.1;
        answered = p.2;
        accepted = (low, high);
        redirects = r.0.0;
        requested = r.0.1;
        reached = r.1;
      }

  map-none : (o : Option SendError) → Option.map posting.error_text o ≡ none → o ≡ none
  map-none none e = refl
  map-none (some x) e = cc

  slack-Delivered :
      (event : AlertEvent)
      → NeedsConnection posting.network
      → Slack.send posting event ≡ none
      → Delivered event
  unfolding Slack.send
  slack-Delivered event sound e =
      let a = Slack.judge-eq-none posting _ e in
      posted-Delivered event _ a.0 sound a.1 (omega (arith, a.2)) (omega (arith, a.2))

  webhook-Delivered :
      (now : Time) (event : AlertEvent)
      → NeedsConnection posting.network
      → Webhook.send posting now event ≡ none
      → Delivered event
  unfolding Webhook.send
  webhook-Delivered now event sound e =
      let a = Webhook.judge-eq-none posting _ e in posted-Delivered event _ a.0 sound a.1 a.2 a.3

  lookup-build_notifiers :
      (type : Text) (now : Time) (cfg : Config)
      → text_eq (quoted "email") type ≡ false
      → lookup type (build_notifiers now cfg) ≡ (
          if text_eq (quoted "slack") type
          then some (slack_notifier posting)
          else if text_eq (quoted "webhook") type
          then some (webhook_notifier posting now)
          else none)
  unfolding build_notifiers email_entry lookup
  lookup-build_notifiers type now cfg other =
      elim (Bool-cases (not (is_empty cfg.smtp_host) && not (is_empty cfg.smtp_from))) [
        | inl e ↦ rw (e, other) refl
        | inr e ↦ rw e refl
      ]

  -- If the worker gets no error for an event that is not for an e-mail channel, the event was
  -- posted to the URL in its channel's config and answered with a 2xx status. That request, and
  -- each that a redirect led to, went over a connection that the dialer made to an address that
  -- the host of its URL resolved to, and neither this nor any other of the host's addresses was
  -- private. What is assumed of the client of net/http is that it sends a request only over a
  -- connection of its dialer to the host and port of the request's URL, and the given request
  -- first.
  pub outcome-Delivered :
      (no_notifier : Text → Text) (now : Time) (cfg : Config) (event : AlertEvent)
      → NeedsConnection posting.network
      → text_eq (quoted "email") event.channel.type ≡ false
      → outcome
          (build_notifiers now cfg)
          no_notifier
          (lookup event.channel.type (build_notifiers now cfg))
          event
        ≡ none
      → Delivered event
  unfolding outcome
  outcome-Delivered no_notifier now cfg event sound other =
      rw (lookup-build_notifiers event.channel.type now cfg other)
        (elim (Bool-cases (text_eq (quoted "slack") event.channel.type)) [
          | inl p ↦ rw p (λ e. slack-Delivered event sound (map-none _ e))
          | inr p ↦ elim (Bool-cases (text_eq (quoted "webhook") event.channel.type)) [
            | inl q ↦ rw (p, q) (λ e. webhook-Delivered now event sound (map-none _ e))
            | inr q ↦ rw (p, q) (λ e. cc)
          ]
        ])
