-- ===== src/Notify/Posting.antt =====
-- What the Slack and the webhook notifier of internal/notify have in common: the URL of the
-- channel's config, the request, and what can go wrong.
use cron_mon.Base.{
  ℕ, ◌≡◌, refl, ap, inl, inr, Option, none, some, is_some, if◌then◌else◌, Bool-cases, Option-cases,
}
use cron_mon.Base.Text.{Text, is_empty, quoted}
use cron_mon.Time.{Time}
use cron_mon.Model.{AlertEvent}
use cron_mon.Handler.Channel.Validation.{Library}
use cron_mon.Notify.Json.{Json}
use cron_mon.Notify.Client.{Post, Reply, Network, new_ssrf_safe_client}

-- Why Send fails.
pub data SendError : Type 0 where
  unreadable_config missing_url unprintable bad_url no_response unreadable_body : SendError
  unexpected_status : ℕ → SendError
  unexpected_body : Text → SendError

-- What surrounds the notifiers: packages json, url, net and time, and the network.
pub record Posting : Type 0 where
  pub lib : Library
  pub network : Network
  -- json.Marshal
  pub print : Json → Option Text
  -- t.UTC().Format(time.RFC3339), and how a time is written in JSON.
  pub rfc3339 : Time → Text
  pub rfc3339_nano : Time → Text
  -- The text of an error.
  pub error_text : SendError → Text

-- What comes of a request.
pub data Posted : Type 0 where
  answered : Reply → Posted
  stopped : SendError → Posted

module _ (env : Posting) where
  answer : Option Reply → Posted
  answer none = stopped no_response
  answer (some reply) = answered reply

  -- The request, and the client's Do.
  unfoldable pub post_body : Text → Option Text → Posted
  unfolding answer new_ssrf_safe_client
  post_body url none = stopped unprintable
  post_body url (some body) =
      if is_some (env.lib.parse_url url)
      then answer (
          new_ssrf_safe_client env.network
            (record { url = url; content_type = quoted "application/json"; body = body }))
      else stopped bad_url

  -- From the config of the channel to the response.
  unfoldable pub post_json : AlertEvent → Json → Posted
  unfolding post_body
  post_json event payload = elim (env.lib.unmarshal "url" event.channel.config) [
    | none ↦ stopped unreadable_config
    | some url ↦ if is_empty url then stopped missing_url else post_body url (env.print payload)
  ]

  -- The request that was answered.
  abbrev pub PostOf : AlertEvent → Json → Post → Type 0
  PostOf event payload post =
      (env.lib.unmarshal "url" event.channel.config ≡ some post.url)
      × (env.print payload ≡ some post.body)
      × (post.content_type ≡ quoted "application/json")

  answer-answered : (o : Option Reply) (reply : Reply) → answer o ≡ answered reply → o ≡ some reply
  unfolding answer
  answer-answered none reply e = cc
  answer-answered (some r) reply e = let same : r ≡ reply = cc in ap some same

  pub post_json-answered :
      (event : AlertEvent) (payload : Json) (reply : Reply)
      → post_json event payload ≡ answered reply
      → (post : Post) × PostOf event payload post
        × (new_ssrf_safe_client env.network post ≡ some reply)
  unfolding post_json post_body
  post_json-answered event payload reply =
      elim (Option-cases (env.lib.unmarshal "url" event.channel.config)) [
        | inl p ↦ rw (p, post_json) (λ e. cc)
        | inr (url, p) ↦
            rw (p, post_json)
              (elim (Bool-cases (is_empty url)) [
                | inl q ↦ rw q (λ e. cc)
                | inr q ↦ rw q (elim (Option-cases (env.print payload)) [
                  | inl r ↦ rw (r, post_body) (λ e. cc)
                  | inr (body, r) ↦
                      rw (r, post_body)
                        (elim (Bool-cases (is_some (env.lib.parse_url url))) [
                          | inl s ↦ rw s (λ e. (
                            record {
                              url = url;
                              content_type = quoted "application/json";
                              body = body;
                            },
                            (refl, refl, refl),
                            answer-answered _ reply e,
                          ))
                          | inr s ↦ rw s (λ e. cc)
                        ])
                ])
              ])
      ]
