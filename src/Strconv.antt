-- ===== src/Strconv.antt =====
-- What the program uses of package strconv: decimal numbers of 64 and 16 bits, and booleans.
use cron_mon.Base.{
  ℕ, ◌+◌, ◌-◌, ◌*◌, ◌^◌, Bool, true, false, ◌&&◌, ◌||◌, Option, none, some, [], ◌∷◌, ltb, leb, ◌==◌,
  if◌then◌else◌, ◌>>=◌, String, List,
}
use cron_mon.Base.Int.{ℤ, pos, negsuc}
use cron_mon.Base.Text.{Text, text_eq, is_empty, quoted}

digits : ℕ → Text → Option ℕ
digits n [] = some n
digits n (c ∷ s) = if leb b'0' c && leb c b'9' then digits (n * 10 + (c - b'0')) s else none

-- A non-empty row of decimal digits.
abbrev magnitude : Text → Option ℕ
magnitude s = if is_empty s then none else digits 0 s

positive : ℕ → Option ℤ
positive n = if ltb n (2 ^ 63) then some (pos n) else none

negative : ℕ → Option ℤ
negative n = if n == 0 then some (pos 0) else if leb n (2 ^ 63) then some (negsuc (n - 1)) else none

-- strconv.Atoi, and ParseInt(s, 10, 64); `none` is an error.
unfoldable pub atoi : Text → Option ℤ
unfolding digits positive negative
atoi [] = none
atoi (c ∷ s) =
    if c == b'-'
    then (magnitude s >>= negative)
    else if c == b'+'
    then (magnitude s >>= positive)
    else (magnitude (c ∷ s) >>= positive)

-- ParseUint(s, 10, 16)
unfoldable pub parse_uint16 : Text → Option ℕ
unfolding digits
parse_uint16 s = do n ← magnitude s; if ltb n (2 ^ 16) then some n else none

is_one_of : Text → List String → Bool
is_one_of s [] = false
is_one_of s (w ∷ ws) = text_eq s (quoted w) || is_one_of s ws

-- ParseBool
unfoldable pub parse_bool : Text → Option Bool
unfolding is_one_of text_eq
parse_bool s =
    if is_one_of s ("1" ∷ "t" ∷ "T" ∷ "TRUE" ∷ "true" ∷ "True" ∷ [])
    then some true
    else if is_one_of s ("0" ∷ "f" ∷ "F" ∷ "FALSE" ∷ "false" ∷ "False" ∷ [])
    then some false
    else none
