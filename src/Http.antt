-- ===== src/Http.antt =====
-- What the handlers use of package net/http: form requests and the responses that the code writes.
use cron_mon.Base.{
  ℕ, String, ◌++◌, Bool, true, false, Option, none, some, List, [], ◌∷◌, leb, if◌then◌else◌,
}
use cron_mon.Base.Text.{Text, text_eq, quoted}
use cron_mon.Table.{Table, lookup}

-- A request with a URL-encoded body. `parsed` is r.Form after the first parse; later parses and
-- limits have no effect on it.
pub record Request : Type 0 where
  pub method : Text
  pub path : Text
  pub remote_addr : Text
  pub headers : Table Text
  pub basic_auth : Option (Text × Text)
  pub query : List (Text × Text)
  pub body : List (Text × Text)
  pub body_bytes : ℕ
  pub parsed : Option (List (Text × Text))

-- A parse, given the form of an earlier one.
unfoldable pub parse_once : ℕ → Option (List (Text × Text)) → Request → Bool × Request
parse_once limit (some form) r = (true, r)
parse_once limit none r =
    if leb r.body_bytes limit
    then (true, record r { parsed = some (r.body ++ r.query) })
    else (false, record r { parsed = some r.query })

-- r.Body = http.MaxBytesReader(w, r.Body, limit); err := r.ParseForm(): whether it succeeds, and
-- the request afterwards. An oversized body leaves only the query's values.
unfoldable pub parse_form : ℕ → Request → Bool × Request
unfolding parse_once
parse_form limit r = parse_once limit r.parsed r

or_empty : Option Text → Text
or_empty none = []
or_empty (some v) = v

abbrev form_of : Request → List (Text × Text)
form_of r = elim r.parsed [ none ↦ [] | some form ↦ form ]

-- r.FormValue(key), after a parse: the first value, or "".
unfoldable pub form_value : String → Request → Text
unfolding or_empty lookup
form_value key r = or_empty (lookup (quoted key) (form_of r))

-- r.Header.Get(key)
unfoldable pub header_value : String → Request → Text
unfolding or_empty lookup
header_value key r = or_empty (lookup (quoted key) r.headers)

-- r.Form[key]: every value, in order.
all_values : Text → List (Text × Text) → List Text
all_values key [] = []
all_values key ((k, v) ∷ form) =
    let rest = all_values key form in if text_eq k key then v ∷ rest else rest

unfoldable pub form_values : String → Request → List Text
unfolding all_values
form_values key r = all_values (quoted key) (form_of r)

-- Why a form is refused with 400.
pub data Reason : Type 0 where
  name_required invalid_schedule invalid_grace unreadable_form invalid_channel_id : Reason
  invalid_config : Reason

-- The answers that the handlers write. `ok_text` is 200 with the body "OK\n".
pub data Response : Type 0 where
  ok_text ok_page not_found internal_error unauthorized method_not_allowed : Response
  redirect : Text → Response
  bad_request : Reason → Response
