-- ===== src/Tests/Serving.antt =====
-- The theorems on internal/middleware and internal/config at concrete inputs.
use cron_mon.Base.{◌≡◌, refl, Option, none, some, [], ◌∷◌, arith}
use cron_mon.Base.Text.{Text, text_eq, quoted}
use cron_mon.Http.{Request, bad_request, name_required}
use cron_mon.Config.{validate, is_absolute, IsServable, validate-IsServable}
use cron_mon.Middleware.{method_override}
use cron_mon.Middleware.Override.{handle_create-method_override}
use cron_mon.Handler.Check.{handle_create}
use cron_mon.Model.{Check}
use cron_mon.Handler.Dashboard.{listed}
use cron_mon.Handler.Dashboard.Listing.{Lists, listed-Lists}
use cron_mon.Middleware.Logging.{IsSafe, request_logging, request_logging-IsSafe}
use cron_mon.Tests.Fixtures.{
  settings, every_minute, two_expressions, memory_checks, backup_id, backup, at, world_of,
  ping_request,
}

-- A form of 2000 bytes, with a long list of tags.
abbrev long_form : Request
long_form = record ping_request {
  method = quoted "POST";
  path = quoted "/checks";
  body =
      (quoted "name", quoted "backup")
      ∷ (quoted "schedule", every_minute)
      ∷ (quoted "grace", quoted "5")
      ∷ [];
  body_bytes = 2000;
}

handle_create-method_override_example :
    handle_create memory_checks two_expressions backup_id
      (at 10)
      (method_override long_form)
      (world_of (backup none))
    ≡ (bad_request name_required, world_of (backup none))
unfolding text_eq
handle_create-method_override_example =
    handle_create-method_override two_expressions memory_checks backup_id (at 10) long_form
      (world_of (backup none)) refl refl refl (omega arith)

parse_example : Text → Option (Text × Text)
parse_example url = some (quoted "https", quoted "example.com")

validate-IsServable_example : IsServable parse_example settings
unfolding validate is_absolute parse_example
validate-IsServable_example = validate-IsServable parse_example settings refl

abbrev tagged : Check
tagged = record (backup none) { tags = quoted "prod, db" }

listed-Lists_example :
    Lists
      (quoted "db")
      (backup none ∷ tagged ∷ [])
      (listed (quoted "db") (backup none ∷ tagged ∷ []))
listed-Lists_example = listed-Lists (quoted "db") (backup none ∷ tagged ∷ [])

request_logging-IsSafe_example :
    IsSafe (404 ∷ []) ping_request (request_logging (404 ∷ []) ping_request)
request_logging-IsSafe_example = request_logging-IsSafe (404 ∷ []) ping_request (omega arith, tt)
