-- ===== src/Notify/Email/Message.antt =====
-- sanitizeHeader and buildMIMEMessage of internal/notify/email.go.
use cron_mon.Base.{
  ℕ, ◌≡◌, refl, ap, inl, inr, Bool, true, false, ◌||◌, Option, none, some, List, [], ◌∷◌, ◌++◌, map,
  All, arith, ◌==◌, if◌then◌else◌, Bool-cases,
}
use mathlib.Core.List.{append_assoc}
use cron_mon.Base.Text.{Text, quoted, contains, split, text_eq}
use cron_mon.Base.Int.{ℤ}
use cron_mon.Time.{Time}

-- What buildMIMEMessage uses of packages time, mime and fmt.
pub record Printers : Type 0 where
  -- t.UTC().Format(time.RFC1123Z)
  pub rfc1123z : Time → Text
  -- mime.QEncoding.Encode("utf-8", s)
  pub q_encode : Text → Text
  -- %d
  pub decimal : ℤ → Text

-- strings.ContainsAny(value, "\r\n")
unfoldable pub has_break : Text → Bool
unfolding contains
has_break value = contains 13 value || contains 10 value

-- sanitizeHeader: whether it reports an error.
abbrev pub sanitize_header : Text → Bool
sanitize_header value = has_break value

-- Lines, each ended by a carriage return and a line feed.
unfoldable pub crlf_lines : List Text → Text
crlf_lines [] = []
crlf_lines (l ∷ ls) = l ++ 13 ∷ 10 ∷ crlf_lines ls

module _ (printers : Printers) where
  open printers use {rfc1123z, q_encode, decimal}

  -- The line of each header.
  abbrev pub headers : Time → Text → Text → Text → List Text
  headers now from to subject =
      quoted "MIME-Version: 1.0"
      ∷ (quoted "Date: " ++ rfc1123z now)
      ∷ (quoted "From: " ++ from)
      ∷ (quoted "To: " ++ to)
      ∷ (quoted "Subject: " ++ q_encode subject)
      ∷ (quoted "Content-Type: multipart/alternative; boundary=\"cronmon"
          ++ decimal now
          ++ b'"' ∷ [])
      ∷ []

  -- The two parts, each after a line with the boundary.
  abbrev pub parts : Time → Text → Text → List Text
  parts now plain html =
      let boundary = quoted "cronmon" ++ decimal now in
      (quoted "--" ++ boundary)
      ∷ quoted "Content-Type: text/plain; charset=utf-8"
      ∷ quoted "Content-Transfer-Encoding: 8bit"
      ∷ []
      ∷ plain
      ∷ (quoted "--" ++ boundary)
      ∷ quoted "Content-Type: text/html; charset=utf-8"
      ∷ quoted "Content-Transfer-Encoding: 8bit"
      ∷ []
      ∷ html
      ∷ (quoted "--" ++ boundary ++ quoted "--")
      ∷ []

  -- buildMIMEMessage, at one time `now`; `none` is the error of sanitizeHeader.
  unfoldable pub build_mime_message : Time → Text → Text → Text → Text → Text → Option Text
  unfolding has_break crlf_lines
  build_mime_message now from to subject plain html =
      if sanitize_header from
      then none
      else if sanitize_header to
      then none
      else some (crlf_lines (headers now from to subject ++ [] ∷ parts now plain html))

-- What a reader of the message sees as its header: the lines before the first blank one. A line
-- ends at a line feed.
unfoldable pub until_blank : List Text → List Text
until_blank [] = []
until_blank (l ∷ ls) = let rest = until_blank ls in if text_eq l (13 ∷ []) then [] else l ∷ rest

abbrev pub header_block : Text → List Text
header_block message = until_blank (split 10 message)

split-line : (l rest : Text) → contains 10 l ≡ false → split 10 (l ++ 10 ∷ rest) ≡ l ∷ split 10 rest
unfolding split contains
split-line [] rest h = refl
split-line (c ∷ l) rest h =
    let tail : contains 10 l ≡ false = ground arith in
    let other : (c == 10) ≡ false = ground arith in rw (other, split-line l rest tail) refl

contains-append :
    (c : ℕ) (s t : Text) → contains c s ≡ false → contains c t ≡ false → contains c (s ++ t) ≡ false
unfolding contains
contains-append c [] t h k = k
contains-append c (d ∷ s) t h k = ground (arith, contains-append c s t (ground arith) k)

-- A line of a header: not blank, and without a line feed.
IsLine : Text → Type 0
IsLine l = (text_eq (l ++ 13 ∷ []) (13 ∷ []) ≡ false) × (contains 10 l ≡ false)

header_block-crlf_lines :
    (ls rest : List Text)
    → All IsLine ls
    → header_block (crlf_lines (ls ++ [] ∷ rest)) ≡ map (λ l. l ++ 13 ∷ []) ls
unfolding crlf_lines until_blank contains IsLine split text_eq
header_block-crlf_lines [] rest h = refl
header_block-crlf_lines (l ∷ ls) rest h =
    let below = crlf_lines (ls ++ [] ∷ rest) in
    let no_feed : contains 10 (l ++ 13 ∷ []) ≡ false = contains-append 10 l _ h.0.1 refl in
    rw (← append_assoc l (13 ∷ []) (10 ∷ below), split-line (l ++ 13 ∷ []) below no_feed, h.0.0)
      (ap (λ t. (l ++ 13 ∷ []) ∷ t) (header_block-crlf_lines ls rest h.1))

-- What is documented of the printers: none of them writes a line break.
pub record IsPrinters (printers : Printers) : Type 0 where
  pub rfc1123z_flat : (now : Time) → has_break (printers.rfc1123z now) ≡ false
  pub q_encode_flat : (s : Text) → has_break (printers.q_encode s) ≡ false
  pub decimal_flat : (n : ℤ) → has_break (printers.decimal n) ≡ false

no_feed : (s : Text) → has_break s ≡ false → contains 10 s ≡ false
unfolding has_break
no_feed s h = ground arith

headers-IsLine :
    (printers : Printers) (now : Time) (from to subject : Text)
    → IsPrinters printers
    → has_break from ≡ false
    → has_break to ≡ false
    → All IsLine (headers printers now from to subject)
unfolding IsLine text_eq contains
headers-IsLine printers now from to subject sound hf ht = (
  (refl, refl),
  (
    (refl, no_feed _ (sound.rfc1123z_flat now)),
    (
      (refl, no_feed from hf),
      (
        (refl, no_feed to ht),
        (
          (refl, no_feed _ (sound.q_encode_flat subject)),
          (
            (
              refl,
              contains-append 10 (printers.decimal now) _ (no_feed _ (sound.decimal_flat now)) refl,
            ),
            tt,
          ),
        ),
      ),
    ),
  ),
)

-- The message that is refused, or one whose header is as it was composed.
unfoldable pub Composed : Printers → Time → Text → Text → Text → Option Text → Type 0
Composed printers now from to subject none = has_break from || has_break to ≡ true
Composed printers now from to subject (some message) =
    (header_block message ≡ map (λ l. l ++ 13 ∷ []) (headers printers now from to subject))
    × (has_break from ≡ false)
    × (has_break to ≡ false)

-- buildMIMEMessage refuses a sender or a recipient with a line break. Otherwise the lines that a
-- reader finds before the first blank line are the six headers, whatever the subject and the
-- bodies hold: no value adds a header of its own, if what package mime, time and fmt print has no
-- line break.
pub build_mime_message-Composed :
    (printers : Printers) (now : Time) (from to subject plain html : Text)
    → IsPrinters printers
    → Composed printers now from to subject
        (build_mime_message printers now from to subject plain html)
unfolding build_mime_message Composed
build_mime_message-Composed printers now from to subject plain html sound =
    elim (Bool-cases (has_break from)) [
      | inl e ↦ rw (e, Composed) (ground arith)
      | inr e ↦ elim (Bool-cases (has_break to)) [
        | inl f ↦ rw (e, f, Composed) (ground arith)
        | inr f ↦
            rw (e, f, Composed)
              (
                header_block-crlf_lines (headers printers now from to subject)
                    (parts printers now plain html)
                    (headers-IsLine printers now from to subject sound e f),
                e,
                f,
              )
      ]
    ]
