-- ===== src/Config.antt =====
-- internal/config/config.go. The environment, a .env file included, is the parameter `lookup_env`;
-- url.ParseRequestURI is the parameter `parse_request_uri`: the scheme and the host.
pub mod Printing
use cron_mon.Base.{
  String, ◌≡◌, Bool, true, false, not, ◌&&◌, ◌||◌, Option, none, some, [], arith, if◌then◌else◌,
}
use cron_mon.Base.Int.{ℤ, pos, negsuc, ltb_ℤ, ◌≤ℤ◌}
use cron_mon.Base.Text.{Text, text_eq, is_empty, quoted}
use cron_mon.Strconv.{atoi, parse_bool}

pub record Config : Type 0 where
  pub port : Text
  pub db_path : Text
  pub base_url : Text
  pub scheduler_interval : ℤ
  pub admin_user : Text
  pub admin_pass : Text
  pub smtp_host : Text
  pub smtp_port : Text
  pub smtp_user : Text
  pub smtp_pass : Text
  pub smtp_from : Text
  pub smtp_tls : Bool
  pub trusted_proxy : Bool
  pub require_https : Bool
  pub log_level : Text

abbrev or_default : Option Text → Text → Text
or_default none default = default
or_default (some v) default = v

module _ (lookup_env : String → Option Text) where
  -- os.Getenv
  env : String → Text
  env key = or_default (lookup_env key) []

  unfoldable pub getenv : String → String → Text
  getenv key default = or_default (lookup_env key) (quoted default)

  interval_of : Option ℤ → ℤ
  interval_of none = negsuc 0
  interval_of (some n) = n

  tls_of : Option Bool → Bool
  tls_of none = true
  tls_of (some b) = b

  is_true : String → Bool
  is_true key = text_eq (env key) (quoted "true")

  -- Load, where the .env file is missing or well formed.
  unfoldable pub load : Config
  unfolding env getenv interval_of tls_of is_true text_eq atoi parse_bool
  load = record {
    port = getenv "PORT" "8080";
    db_path = getenv "DB_PATH" "cronmon.db";
    base_url = env "BASE_URL";
    scheduler_interval = interval_of (atoi (getenv "SCHEDULER_INTERVAL" "30"));
    admin_user = getenv "ADMIN_USER" "admin";
    admin_pass = env "ADMIN_PASS";
    smtp_host = env "SMTP_HOST";
    smtp_port = getenv "SMTP_PORT" "587";
    smtp_user = env "SMTP_USER";
    smtp_pass = env "SMTP_PASS";
    smtp_from = env "SMTP_FROM";
    smtp_tls = tls_of (parse_bool (getenv "SMTP_TLS" "true"));
    trusted_proxy = is_true "TRUSTED_PROXY";
    require_https = is_true "REQUIRE_HTTPS";
    log_level = getenv "LOG_LEVEL" "info";
  }

-- The errors of Validate.
pub data Invalid : Type 0 where
  base_url_missing base_url_malformed admin_pass_missing interval_malformed interval_short : Invalid
  smtp_host_missing smtp_from_missing : Invalid

module _ (parse_request_uri : Text → Option (Text × Text)) where
  unfoldable pub is_absolute : Text → Bool
  is_absolute url = elim (parse_request_uri url) [
    | none ↦ false
    | some (scheme, host) ↦ not (is_empty scheme) && not (is_empty host)
  ]

  smtp_any_set : Config → Bool
  smtp_any_set c =
      not (is_empty c.smtp_host)
      || not (is_empty c.smtp_user)
      || not (is_empty c.smtp_pass)
      || not (is_empty c.smtp_from)

  validate_smtp : Config → Option Invalid
  validate_smtp c =
      if not (smtp_any_set c)
      then none
      else if is_empty c.smtp_host
      then some smtp_host_missing
      else if is_empty c.smtp_from
      then some smtp_from_missing
      else none

  -- Validate: the first error.
  unfoldable pub validate : Config → Option Invalid
  unfolding is_absolute smtp_any_set validate_smtp
  validate c =
      if is_empty c.base_url
      then some base_url_missing
      else if not (is_absolute c.base_url)
      then some base_url_malformed
      else if is_empty c.admin_pass
      then some admin_pass_missing
      else if ltb_ℤ c.scheduler_interval (pos 0)
      then some interval_malformed
      else if ltb_ℤ c.scheduler_interval (pos 10)
      then some interval_short
      else validate_smtp c

  -- A configuration that starts the program.
  pub record IsServable (c : Config) : Type 0 where
    pub absolute : is_absolute c.base_url ≡ true
    pub secret : is_empty c.admin_pass ≡ false
    pub paced : pos 10 ≤ℤ c.scheduler_interval
    -- E-mail is set up whole, or not at all.
    pub mailing : is_empty c.smtp_host ≡ is_empty c.smtp_from
    pub credentials :
        not (is_empty c.smtp_host) || is_empty c.smtp_user && is_empty c.smtp_pass ≡ true

  -- A configuration that passes Validate has an absolute base URL, a password for the dashboard, at
  -- least ten seconds between the scheduler's passes, and the host and the sender of the SMTP
  -- settings both or neither, and no SMTP credentials without them.
  pub validate-IsServable : (c : Config) → validate c ≡ none → IsServable c
  unfolding validate
  validate-IsServable c h = record {
    absolute = ground arith;
    secret = ground arith;
    paced = ground arith;
    mailing = ground arith;
    credentials = ground arith;
  }

-- redact
unfoldable pub redact : Text → Text
redact s = if is_empty s then [] else quoted "***"
