-- ===== src/Middleware/Override.antt =====
-- The form after MethodOverride of internal/middleware/method_override.go, as the handlers of
-- internal/handler/check.go read it.
use cron_mon.Base.{
  ℕ, String, ◌<◌, ◌≡◌, refl, ap, ◌∙◌, inl, inr, true, false, none, some, List, [], arith, leb,
  Bool-cases,
}
use cron_mon.Base.Text.{Text, text_eq, quoted}
use cron_mon.Time.{Time}
use cron_mon.Schedule.{Cron}
use cron_mon.Repository.{CheckRepository}
use cron_mon.Table.{lookup}
use cron_mon.World.{World}
use cron_mon.Http.{Request, bad_request, name_required, parse_form, parse_once, form_value}
use cron_mon.Handler.Check.{parse_check_form, refused, handle_create, max_form_bytes}
use cron_mon.Middleware.{method_override, override_parsed, is_overriding, to_upper}

-- Only the method may change after the form was parsed.
parsed-override_parsed : (r : Request) → (override_parsed r).parsed ≡ r.parsed
unfolding override_parsed
parsed-override_parsed r = elim (Bool-cases (is_overriding (to_upper (form_value "_method" r)))) [
  | inl e ↦ rw e refl
  | inr e ↦ rw e refl
]

parsed-parse_form :
    (limit : ℕ) (r : Request)
    → r.parsed ≡ none
    → limit < r.body_bytes
    → (parse_form limit r).1.parsed ≡ some r.query
unfolding parse_form parse_once
parsed-parse_form limit r fresh large =
    let over : leb r.body_bytes limit ≡ false = ground arith in rw (fresh, over) refl

parsed-method_override :
    (r : Request)
    → r.parsed ≡ none
    → text_eq r.method (quoted "POST") ≡ true
    → 1024 < r.body_bytes
    → (method_override r).parsed ≡ some r.query
unfolding method_override
parsed-method_override r fresh post large =
    rw post (parsed-override_parsed _ ∙ parsed-parse_form _ r fresh large)

parse_form-parsed :
    (limit : ℕ) (r : Request) (form : List (Text × Text))
    → r.parsed ≡ some form
    → parse_form limit r ≡ (true, r)
unfolding parse_form parse_once
parse_form-parsed limit r form e = ap (λ o. parse_once limit o r) e

form_value-empty : (key : String) (r : Request) → r.parsed ≡ some [] → form_value key r ≡ []
unfolding form_value lookup
form_value-empty key r e = rw (e, form_value) refl

-- A form without fields is refused.
parse_check_form-empty :
    (cron : Cron) (r : Request)
    → r.parsed ≡ some []
    → parse_check_form cron r ≡ refused (bad_request name_required)
unfolding parse_check_form
parse_check_form-empty cron r e =
    rw (parse_form-parsed max_form_bytes r [] e) (rw (form_value-empty "name" r e) refl)

-- A POST that has not been parsed, with no query and more than 1024 bytes of form in its body,
-- loses every field to MethodOverride: creating the check that it describes is refused with "name
-- is required", and nothing is stored.
pub handle_create-method_override :
    (cron : Cron) {Db : Type 0} (checks : CheckRepository Db) (id : Text) (now : Time) (r : Request)
    (w : World Db)
    → r.parsed ≡ none
    → r.query ≡ []
    → text_eq r.method (quoted "POST") ≡ true
    → 1024 < r.body_bytes
    → handle_create checks cron id now (method_override r) w ≡ (bad_request name_required, w)
unfolding handle_create
handle_create-method_override cron checks id now r w fresh plain post large =
    let lost : (method_override r).parsed ≡ some [] =
      parsed-method_override r fresh post large ∙ ap some plain in
    rw (parse_check_form-empty cron (method_override r) lost, handle_create) refl
