-- ===== src/Handler/Channel/Validation.antt =====
-- The config of a channel in internal/handler/channel.go: how it is built from the form and
-- validated. The functions of encoding/json, net/mail, net/url and net that it calls are the
-- record `Library`.
use cron_mon.Base.{
  String, Bool, false, not, ◌&&◌, ◌||◌, Option, none, some, is_some, [], if◌then◌else◌,
}
use cron_mon.Base.Text.{Text, is_empty, text_eq, quoted, trim_space, has_prefix}
use cron_mon.Strconv.{parse_uint16}
use cron_mon.Http.{Request, form_value}
use cron_mon.Notify.Ip.{Ip, is_private_ip}

-- url.URL: the scheme, the host, and what Hostname and Port make of the host.
pub record Url : Type 0 where
  pub scheme : Text
  pub host : Text
  pub hostname : Text
  pub port : Text

pub record Library : Type 0 where
  -- json.Marshal of a struct with the one field.
  pub marshal : String → Text → Text
  -- json.Unmarshal into a struct with the one field, "" if it is missing; `none` is an error.
  pub unmarshal : String → Text → Option Text
  -- mail.ParseAddress: whether it succeeds.
  pub valid_address : Text → Bool
  -- url.Parse
  pub parse_url : Text → Option Url
  -- net.ParseIP
  pub parse_ip : Text → Option Ip

-- The cases of the two switches on the type.
pub data ChannelType : Type 0 where
  email slack webhook unknown : ChannelType

unfoldable pub type_of : Text → ChannelType
unfolding text_eq
type_of t =
    if text_eq t (quoted "email")
    then ChannelType.email
    else if text_eq t (quoted "slack")
    then ChannelType.slack
    else if text_eq t (quoted "webhook")
    then ChannelType.webhook
    else ChannelType.unknown

module _ (lib : Library) where
  open lib use {marshal, unmarshal, valid_address, parse_url, parse_ip}

  field_config : String → Text → Text
  field_config field v = let s = trim_space v in if is_empty s then [] else marshal field s

  -- buildConfigFromFields
  unfoldable pub build_config_from_fields : ChannelType → Request → Text
  unfolding field_config
  build_config_from_fields ChannelType.email r =
      field_config "address" (form_value "_email_address" r)
  build_config_from_fields ChannelType.slack r = field_config "url" (form_value "_slack_url" r)
  build_config_from_fields ChannelType.webhook r = field_config "url" (form_value "_webhook_url" r)
  build_config_from_fields ChannelType.unknown r = []

  -- validateEmailConfig, and the others: whether the config is accepted.
  unfoldable pub validate_email_config : Text → Bool
  validate_email_config config = elim (unmarshal "address" config) [
    | none ↦ false
    | some address ↦ not (is_empty address) && valid_address address
  ]

  unfoldable pub validate_slack_config : Text → Bool
  validate_slack_config config = elim (unmarshal "url" config) [
    | none ↦ false
    | some url ↦ not (is_empty url) && has_prefix url (quoted "https://hooks.slack.com/")
  ]

  unfoldable pub private_literal : Text → Bool
  private_literal hostname = elim (parse_ip hostname) [ none ↦ false | some ip ↦ is_private_ip ip ]

  unfoldable pub url_accepted : Url → Bool
  unfolding private_literal text_eq parse_uint16
  url_accepted u =
      not (is_empty u.host || is_empty u.hostname)
      && (is_empty u.port || is_some (parse_uint16 u.port))
      && (text_eq u.scheme (quoted "http") || text_eq u.scheme (quoted "https"))
      && not (private_literal u.hostname)

  unfoldable pub webhook_url_accepted : Text → Bool
  unfolding url_accepted
  webhook_url_accepted url =
      not (is_empty url) && elim (parse_url url) [ none ↦ false | some u ↦ url_accepted u ]

  unfoldable pub validate_webhook_config : Text → Bool
  unfolding webhook_url_accepted url_accepted
  validate_webhook_config config = elim (unmarshal "url" config) [
    | none ↦ false
    | some url ↦ webhook_url_accepted url
  ]

  -- validateChannelConfig
  unfoldable pub validate_channel_config : ChannelType → Text → Bool
  unfolding validate_email_config validate_slack_config validate_webhook_config
  validate_channel_config ChannelType.email config = validate_email_config config
  validate_channel_config ChannelType.slack config = validate_slack_config config
  validate_channel_config ChannelType.webhook config = validate_webhook_config config
  validate_channel_config ChannelType.unknown config = false
