-- ===== src/Middleware.antt =====
-- internal/middleware: basic authentication, the method override and the request log.
pub mod Override
pub mod Logging
use cron_mon.Base.{
  ℕ, ◌+◌, ◌-◌, ◌≡◌, refl, inl, inr, Bool, true, false, not, ◌&&◌, ◌||◌, Option, none, some, List,
  [], ◌∷◌, ◌++◌, map, All, arith, leb, ◌==◌, if◌then◌else◌, Bool-cases,
}
use cron_mon.Base.Text.{Text, text_eq, is_empty, quoted, has_prefix}
use cron_mon.Http.{Request, Response, unauthorized, parse_form, form_value}

-- What r.BasicAuth returns.
abbrev pub credentials : Option (Text × Text) → Bool × Text × Text
credentials none = (false, [], [])
credentials (some (user, pass)) = (true, user, pass)

-- BasicAuth lets a request pass. crypto/sha256 is the parameter `sha256`.
unfoldable pub authorized : (Text → List ℕ) → Text → Text → Request → Bool
unfolding text_eq
authorized sha256 username password r =
    let (ok, user, pass) = credentials r.basic_auth in
    ok && text_eq (sha256 user) (sha256 username) && text_eq (sha256 pass) (sha256 password)

abbrev pub max_method_override_bytes : ℕ
max_method_override_bytes = 1024

-- The ASCII part of strings.ToUpper; no other character upper-cases to a letter of
-- PUT, PATCH or DELETE.
upper_char : ℕ → ℕ
upper_char c = if leb b'a' c && leb c b'z' then c - 32 else c

unfoldable pub to_upper : Text → Text
unfolding upper_char
to_upper [] = []
to_upper (c ∷ s) = upper_char c ∷ to_upper s

unfoldable pub is_overriding : Text → Bool
unfolding text_eq
is_overriding m =
    text_eq m (quoted "PUT") || text_eq m (quoted "PATCH") || text_eq m (quoted "DELETE")

-- The request after its form was parsed.
override_parsed : Request → Request
override_parsed r =
    let m = to_upper (form_value "_method" r) in
    if is_overriding m then record r { method = m } else r

-- MethodOverride: the request that the next handler gets.
unfoldable pub method_override : Request → Request
unfolding override_parsed is_overriding to_upper text_eq
method_override r =
    if text_eq r.method (quoted "POST")
    then override_parsed (parse_form max_method_override_bytes r).1
    else r

-- sanitizeLogString
unfoldable pub sanitize_log_string : Text → Text
sanitize_log_string [] = []
sanitize_log_string (c ∷ s) =
    let rest = sanitize_log_string s in if leb c 0x1f || c == 0x7f then rest else c ∷ rest

-- The path that RequestLogging writes to the log.
unfoldable pub logged_path : Text → Text
unfolding text_eq has_prefix sanitize_log_string
logged_path path = sanitize_log_string (
    if text_eq path (quoted "/ping") || has_prefix path (quoted "/ping/")
    then quoted "/ping/[REDACTED]"
    else path)

-- The log line is free of control characters, whatever the request holds.
pub All-sanitize_log_string :
    (s : Text) → All (λ c. (leb c 0x1f || c == 0x7f) ≡ false) (sanitize_log_string s)
unfolding sanitize_log_string
All-sanitize_log_string [] = tt
All-sanitize_log_string (c ∷ s) = elim (Bool-cases (leb c 0x1f || c == 0x7f)) [
  | inl e ↦ rw e (All-sanitize_log_string s)
  | inr e ↦ rw e (e, All-sanitize_log_string s)
]

-- The log line of a ping does not depend on the ID in its path.
pub logged_path-ping :
    (id other : Text) → logged_path (quoted "/ping/" ++ id) ≡ logged_path (quoted "/ping/" ++ other)
unfolding logged_path text_eq has_prefix
logged_path-ping id other = refl
