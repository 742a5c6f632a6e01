-- ===== src/Notify/Email/Content.antt =====
-- buildSubject and buildBodies of internal/notify/email.go. `rfc3339` is
-- UTC().Format(time.RFC3339).
use cron_mon.Base.{String, ◌≡◌, refl, Option, none, some, List, [], ◌∷◌, ◌++◌, ◌==◌, if◌then◌else◌}
use mathlib.Core.List.{reverse}
use cron_mon.Base.Text.{Text, quoted}
use cron_mon.Time.{Time}
use cron_mon.Model.{AlertType, AlertEvent}

-- buildSubject: the mark, the name in quotes, and what happened.
subject : String → Text → String → Text
subject mark name news = quoted mark ++ b'"' ∷ name ++ b'"' ∷ quoted news

unfoldable pub build_subject : AlertType → Text → Text
unfolding subject
build_subject AlertType.down name = subject "[CronMon] ⚠ " name " is DOWN"
build_subject AlertType.fail name = subject "[CronMon] ✗ " name " FAILED"
build_subject AlertType.up name = subject "[CronMon] ✓ " name " RECOVERED"

-- emailData
pub record EmailData : Type 0 where
  pub check_name : Text
  pub schedule : Text
  pub status : Text
  pub next_expected : Text
  pub ping_url : Text
  pub heading_color : Text

-- The status line and the color of the heading.
unfoldable pub heading : AlertType → Text × Text
heading AlertType.down = (quoted "⚠ DOWN", quoted "#cc0000")
heading AlertType.up = (quoted "✓ RECOVERED", quoted "#007700")
heading AlertType.fail = (quoted "✗ FAILED", quoted "#cc6600")

drop_slashes : Text → Text
drop_slashes [] = []
drop_slashes (c ∷ s) = if c == b'/' then drop_slashes s else c ∷ s

-- strings.TrimRight(s, "/")
unfoldable pub trim_right_slashes : Text → Text
unfolding drop_slashes
trim_right_slashes s = reverse (drop_slashes (reverse s))

-- The address that the check's job pings.
unfoldable pub ping_url : Text → Text → Text
unfolding trim_right_slashes
ping_url base_url id = trim_right_slashes base_url ++ quoted "/ping/" ++ id

ping_url_test :
    ping_url (quoted "https://example.com//") (quoted "b1") ≡ quoted "https://example.com/ping/b1"
unfolding ping_url
ping_url_test = refl

-- Lines, each ended by a line feed.
lf_lines : List Text → Text
lf_lines [] = []
lf_lines (l ∷ ls) = l ++ 10 ∷ lf_lines ls

-- plainTemplate, executed.
unfoldable pub plain_body : EmailData → Text
unfolding lf_lines
plain_body d = lf_lines (
    quoted "CronMon Alert"
    ∷ quoted "============="
    ∷ []
    ∷ (quoted "Check:         " ++ d.check_name)
    ∷ (quoted "Schedule:      " ++ d.schedule)
    ∷ (quoted "Status:        " ++ d.status)
    ∷ (quoted "Next Expected: " ++ d.next_expected)
    ∷ (quoted "Ping URL:      " ++ d.ping_url)
    ∷ []
    ∷ quoted "---"
    ∷ quoted "This is an automated alert from CronMon."
    ∷ [])

-- One row of the table in htmlTemplate; `style` is what the first cell's style ends with.
html_row : String → String → Text → List Text
html_row style title value =
    quoted "    <tr>"
    ∷ (quoted "      <td style=\"padding:8px;border:1px solid #ddd;font-weight:bold"
        ++ quoted style
        ++ quoted "\">"
        ++ quoted title
        ++ quoted "</td>")
    ∷ (quoted "      <td style=\"padding:8px;border:1px solid #ddd\">" ++ value ++ quoted "</td>")
    ∷ quoted "    </tr>"
    ∷ []

html_head : EmailData → List Text
html_head d =
    quoted "<!DOCTYPE html>"
    ∷ quoted "<html>"
    ∷ quoted "<head><meta charset=\"utf-8\"></head>"
    ∷ quoted "<body style=\"font-family:sans-serif;max-width:600px;margin:0 auto;padding:20px\">"
    ∷ (quoted "  <h2 style=\"color:"
        ++ d.heading_color
        ++ quoted "\">CronMon Alert — "
        ++ d.status
        ++ quoted "</h2>")
    ∷ quoted "  <table style=\"border-collapse:collapse;width:100%;margin-bottom:16px\">"
    ∷ []

html_foot : EmailData → List Text
html_foot d =
    quoted "  </table>"
    ∷ (quoted "  <p>Ping URL: <a href=\""
        ++ d.ping_url
        ++ quoted "\">"
        ++ d.ping_url
        ++ quoted "</a></p>")
    ∷ quoted "  <p style=\"color:#999;font-size:12px\">This is an automated alert from CronMon.</p>"
    ∷ quoted "</body>"
    ∷ quoted "</html>"
    ∷ []

-- htmlTemplate, executed: a text template, which escapes nothing.
unfoldable pub html_body : EmailData → Text
unfolding lf_lines html_row html_head html_foot
html_body d = lf_lines (
    html_head d
    ++ html_row ";width:35%" "Check" d.check_name
    ++ html_row "" "Schedule" d.schedule
    ++ html_row "" "Status" d.status
    ++ html_row "" "Next Expected" d.next_expected
    ++ html_foot d)

module _ (rfc3339 : Time → Text) where
  unfoldable pub next_expected_text : Option Time → Text
  next_expected_text none = quoted "unknown"
  next_expected_text (some t) = rfc3339 t

  unfoldable pub email_data : Text → AlertEvent → EmailData
  unfolding heading ping_url next_expected_text
  email_data base_url event = record {
    check_name = event.check.name;
    schedule = event.check.schedule;
    status = (heading event.alert_type).0;
    next_expected = next_expected_text event.check.next_expected_at;
    ping_url = ping_url base_url event.check.id;
    heading_color = (heading event.alert_type).1;
  }

  -- buildBodies: the plain text and the HTML. The templates do not fail on this data.
  unfoldable pub build_bodies : Text → AlertEvent → Text × Text
  unfolding email_data plain_body html_body
  build_bodies base_url event = let d = email_data base_url event in (plain_body d, html_body d)
