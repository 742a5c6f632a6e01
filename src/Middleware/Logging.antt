-- ===== src/Middleware/Logging.antt =====
-- The request log of internal/middleware/logging.go.
use cron_mon.Base.{
  ℕ, zero, suc, ◌≤◌, arith, Bool, ◌≡◌, refl, false, List, [], ◌∷◌, ◌||◌, All, leb, ◌==◌,
  if◌then◌else◌, true,
}
use mathlib.Core.List.{foldl}
use cron_mon.Base.Text.{Text, text_eq, quoted, has_prefix}
use cron_mon.Http.{Request}
use cron_mon.Middleware.{sanitize_log_string, logged_path, All-sanitize_log_string}

-- The attributes of a log line, but for the duration.
pub record LogLine : Type 0 where
  pub method : Text
  pub path : Text
  pub status : ℕ
  pub remote_addr : Text

-- WriteHeader of the responseRecorder: the status that it keeps, 0 before the first call.
unfoldable pub write_header : ℕ → ℕ → ℕ
write_header status code = if status == 0 then code else status

-- RequestLogging, given the codes that the handler calls WriteHeader with.
unfoldable pub request_logging : List ℕ → Request → LogLine
unfolding write_header sanitize_log_string logged_path
request_logging codes r =
    let status = foldl write_header 0 codes in
    record {
      method = sanitize_log_string r.method;
      path = logged_path r.path;
      status = if status == 0 then 200 else status;
      remote_addr = sanitize_log_string r.remote_addr;
    }

-- No control character.
abbrev pub Plain : Text → Type 0
Plain = All (λ c. (leb c 0x1f || c == 0x7f) ≡ false)

abbrev pub is_ping_path : Text → Bool
is_ping_path path = text_eq path (quoted "/ping") || has_prefix path (quoted "/ping/")

-- The code of a handler that calls WriteHeader at most once with a code of at least 100.
abbrev pub code_of : List ℕ → ℕ
code_of [] = 200
code_of (code ∷ codes) = code

pub record IsSafe (codes : List ℕ) (r : Request) (line : LogLine) : Type 0 where
  pub method_plain : Plain line.method
  pub path_plain : Plain line.path
  pub addr_plain : Plain line.remote_addr
  pub redacted : is_ping_path r.path ≡ true → line.path ≡ quoted "/ping/[REDACTED]"
  pub first_status : line.status ≡ code_of codes

unwritten_suc : (n : ℕ) → (suc n == 0) ≡ false
unwritten_suc n = ground arith

kept_status : (n : ℕ) (codes : List ℕ) → foldl write_header (suc n) codes ≡ suc n
unfolding write_header
kept_status n [] = refl
kept_status n (code ∷ codes) = rw (unwritten_suc n) (kept_status n codes)

status_first :
    (codes : List ℕ)
    → All (λ c. 100 ≤ c) codes
    → (let status = foldl write_header 0 codes in if status == 0 then 200 else status)
      ≡ code_of codes
unfolding write_header
status_first [] h = refl
status_first (zero ∷ codes) h = ground arith
status_first (suc n ∷ codes) h = rw (kept_status n codes, unwritten_suc n) refl

-- The line that a request leaves in the log holds no control character, and for a path at or
-- below /ping it does not hold the path, so no ID of a check. Its status is the first that the
-- handler wrote, and 200 if it wrote none, where the codes are those of HTTP, from 100 on.
pub request_logging-IsSafe :
    (codes : List ℕ) (r : Request)
    → All (λ c. 100 ≤ c) codes
    → IsSafe codes r (request_logging codes r)
unfolding request_logging logged_path
request_logging-IsSafe codes r h = record {
  method_plain = All-sanitize_log_string r.method;
  path_plain =
      All-sanitize_log_string (if is_ping_path r.path then quoted "/ping/[REDACTED]" else r.path);
  addr_plain = All-sanitize_log_string r.remote_addr;
  redacted = λ e. rw e refl;
  first_status = status_first codes h;
}
