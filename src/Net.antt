-- ===== src/Net.antt =====
-- What the program uses of package net on texts.
use cron_mon.Base.{
  ◌≡◌, refl, ◌++◌, Bool, true, false, ◌||◌, not, Option, none, some, [], ◌∷◌, ◌==◌, if◌then◌else◌,
  ◌>>=◌,
}
use cron_mon.Base.Text.{Text, text_eq, cut, cut_last, contains, quoted}

abbrev guard : Bool → Option (Unit {0})
guard true = some tt
guard false = none

-- After the opening bracket `r`; `last` is what stands around the last colon.
bracketed : Text → Text × Text → Option (Text × Text)
bracketed r last = do
  inside ← cut b']' r
  _ ← guard (text_eq inside.1 (b':' ∷ last.1))
  _ ← guard (not (contains b'[' r))
  _ ← guard (not (contains b']' inside.1))
  some (inside.0, last.1)

unbracketed : Text → Text × Text → Option (Text × Text)
unbracketed s last = do
  _ ← guard (not (contains b':' last.0))
  _ ← guard (not (contains b'[' s))
  _ ← guard (not (contains b']' s))
  some last

-- net.SplitHostPort: "host:port" or "[host]:port"; `none` is an error.
unfoldable pub split_host_port : Text → Option (Text × Text)
unfolding bracketed unbracketed cut_last cut contains text_eq
split_host_port [] = none
split_host_port (c ∷ r) = do
  last ← cut_last b':' (c ∷ r)
  if c == b'[' then bracketed r last else unbracketed (c ∷ r) last

-- net.JoinHostPort
unfoldable pub join_host_port : Text → Text → Text
unfolding contains
join_host_port host port =
    if contains b':' host || contains b'%' host
    then b'[' ∷ host ++ b']' ∷ b':' ∷ port
    else host ++ b':' ∷ port

split_host_port_test :
    (split_host_port (quoted "10.0.0.1:443") ≡ some (quoted "10.0.0.1", quoted "443"))
    × (split_host_port (quoted "[::1]:80") ≡ some (quoted "::1", quoted "80"))
    × (split_host_port (quoted "::1") ≡ none)
    × (split_host_port (quoted "host") ≡ none)
unfolding split_host_port
split_host_port_test = (refl, refl, refl, refl)
