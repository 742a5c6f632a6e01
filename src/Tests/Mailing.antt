-- ===== src/Tests/Mailing.antt =====
-- The theorems on internal/notify/email.go at concrete inputs.
use cron_mon.Base.{
  ℕ, ◌≡◌, ◌↔◌, refl, true, false, ◌||◌, none, [], ◌∷◌, ◌++◌, All, arith, ◌==◌, if◌then◌else◌,
}
use cron_mon.Base.Text.{Text, contains, quoted}
use cron_mon.Notify.Email.Smtp.{EmailConfig, is_loopback, close, send_smtp}
use cron_mon.Notify.Email.Credentials.{confidential, confidential-send_smtp}
use cron_mon.Notify.Email.Delivery.{permitted, script, send_smtp-delivers}
use cron_mon.Notify.Email.Message.{
  Printers, IsPrinters, has_break, build_mime_message, Composed, build_mime_message-Composed,
}
use cron_mon.Tests.Fixtures.{at}

abbrev encrypted : EmailConfig
encrypted = record {
  host = quoted "smtp.example.com";
  port = quoted "587";
  user = quoted "cron";
  pass = quoted "secret";
  from = quoted "cron@example.com";
  tls = true;
  base_url = quoted "https://example.com";
}

confidential-send_smtp_example :
    confidential
      (λ c. false)
      (is_loopback (λ s. none) encrypted.host)
      (send_smtp (λ c. false) (λ s. none) true encrypted (quoted "ops@example.com") (quoted "x")).0
    ≡ true
confidential-send_smtp_example =
    confidential-send_smtp (λ c. false) (λ s. none) true encrypted (quoted "ops@example.com")
      (quoted "x")

send_smtp-delivers_example :
    let calls = script true encrypted (quoted "ops@example.com") (quoted "x") in
    let d =
      send_smtp (λ c. false) (λ s. none) true encrypted (quoted "ops@example.com") (quoted "x") in
    ((d.1 ≡ none) ↔ ((permitted (λ s. none) encrypted ≡ true) × All (λ c. false ≡ false) calls))
    × ((d.1 ≡ none) ↔ (d ≡ (calls ++ close ∷ [], none)))
send_smtp-delivers_example =
    send_smtp-delivers (λ c. false) (λ s. none) true encrypted (quoted "ops@example.com")
      (quoted "x")

-- Line breaks become question marks.
mark : ℕ → ℕ
mark c = if c == 13 || c == 10 then b'?' else c

marked : Text → Text
unfolding mark
marked [] = []
marked (c ∷ s) = mark c ∷ marked s

mark_flat : (c : ℕ) → (mark c == 13 || mark c == 10) ≡ false
unfolding mark
mark_flat c = ground arith

contains-marked : (s : Text) → (contains 13 (marked s) ≡ false) × (contains 10 (marked s) ≡ false)
unfolding contains marked
contains-marked [] = (refl, refl)
contains-marked (c ∷ s) =
    let rest = contains-marked s in
    let here = mark_flat c in (ground (arith, rest.0, here), ground (arith, rest.1, here))

abbrev plain_printers : Printers
plain_printers = record {
  rfc1123z = λ now. quoted "Thu, 01 Jan 1970 00:01:40 +0000";
  q_encode = marked;
  decimal = λ n. quoted "100";
}

plain_printers-IsPrinters : IsPrinters plain_printers
unfolding has_break contains
plain_printers-IsPrinters = record {
  rfc1123z_flat = λ now. refl;
  q_encode_flat = λ s. ground (arith, contains-marked s);
  decimal_flat = λ n. refl;
}

build_mime_message-Composed_example :
    Composed plain_printers
      (at 100)
      (quoted "cron@example.com")
      (quoted "ops@example.com")
      (quoted "a\r\nBcc: x")
      (build_mime_message plain_printers
        (at 100)
        (quoted "cron@example.com")
        (quoted "ops@example.com")
        (quoted "a\r\nBcc: x")
        (quoted "plain")
        (quoted "html"))
build_mime_message-Composed_example =
    build_mime_message-Composed plain_printers (at 100) (quoted "cron@example.com")
      (quoted "ops@example.com") (quoted "a\r\nBcc: x") (quoted "plain") (quoted "html")
      plain_printers-IsPrinters
