-- ===== src/Config/Printing.antt =====
-- String of internal/config/config.go: the configuration as it may be shown. How fmt prints an
-- integer is the parameter `decimal`.
use cron_mon.Base.{◌≡◌, refl, true, false, Bool, ◌++◌, String}
use cron_mon.Base.Int.{ℤ}
use cron_mon.Base.Text.{Text, is_empty, quoted}
use cron_mon.Config.{Config, redact}

-- The verb %v.
abbrev bool_text : Bool → Text
bool_text true = quoted "true"
bool_text false = quoted "false"

line : String → Text → Text
line label value = quoted label ++ value ++ quoted "\n"

module _ (decimal : ℤ → Text) where
  unfoldable pub to_string : Config → Text
  unfolding line redact
  to_string c =
      quoted "Config{\n"
      ++ line "  Port:              " c.port
      ++ line "  DBPath:            " c.db_path
      ++ line "  BaseURL:           " c.base_url
      ++ line "  SchedulerInterval: " (decimal c.scheduler_interval)
      ++ line "  AdminUser:         " c.admin_user
      ++ line "  AdminPass:         " (redact c.admin_pass)
      ++ line "  SMTPHost:          " c.smtp_host
      ++ line "  SMTPPort:          " c.smtp_port
      ++ line "  SMTPUser:          " c.smtp_user
      ++ line "  SMTPPass:          " (redact c.smtp_pass)
      ++ line "  SMTPFrom:          " c.smtp_from
      ++ line "  SMTPTLS:           " (bool_text c.smtp_tls)
      ++ line "  TrustedProxy:      " (bool_text c.trusted_proxy)
      ++ line "  RequireHTTPS:      " (bool_text c.require_https)
      ++ line "  LogLevel:          " c.log_level
      ++ quoted "}"

  -- The text does not depend on the passwords, but for whether they are empty.
  pub to_string-secrets :
      (c : Config) (admin_pass smtp_pass : Text)
      → is_empty admin_pass ≡ is_empty c.admin_pass
      → is_empty smtp_pass ≡ is_empty c.smtp_pass
      → to_string (record c { admin_pass = admin_pass; smtp_pass = smtp_pass }) ≡ to_string c
  unfolding to_string redact
  to_string-secrets c admin_pass smtp_pass a b = rw (a, b) refl
