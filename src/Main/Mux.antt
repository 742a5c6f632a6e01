-- ===== src/Main/Mux.antt =====
-- What buildMux of main.go uses of http.ServeMux: patterns with methods and wildcards, the
-- precedence of the more specific pattern, and the redirects. A mux is its patterns, a more
-- specific one before a less specific.
use cron_mon.Base.{
  ◌+◌, String, Bool, true, false, not, ◌&&◌, ◌||◌, Option, none, some, is_some, List, [], ◌∷◌, ◌++◌,
  map, length, ◌==◌, if◌then◌else◌,
}
use mathlib.Core.Option
use cron_mon.Base.Text.{Text, text_eq, is_empty, quoted, split, has_prefix}

pub data Segment : Type 0 where
  literal : String → Segment
  wildcard : Segment

-- "GET /a/{b}", or a pattern that ends in a slash and matches all paths below it. The handler
-- takes what the wildcards match. Without a method every method matches.
pub record Pattern {ι} (Target : Type ι) : Type ι where
  pub method : Option String
  pub parts : List Segment
  pub subtree : Bool
  pub handler : List Text → Target

-- What a mux makes of a request: a handler, a redirect to another path, or an error.
pub data Found {ι} (Target : Type ι) : Type ι where
  to : Target → Found Target
  moved no_route other_method : Found Target

unfoldable pub drop_first : List Text → List Text
drop_first [] = []
drop_first (t ∷ ts) = ts

-- What stands after each slash of a path; the last is empty if the path ends with a slash.
unfoldable pub segments : Text → List Text
unfolding split drop_first
segments path = drop_first (split b'/' path)

unfoldable pub ends_with_slash : List Text → Bool
ends_with_slash [] = false
ends_with_slash (s ∷ []) = is_empty s
ends_with_slash (s ∷ t ∷ ts) = ends_with_slash (t ∷ ts)

-- Whether cleanPath leaves the segments alone.
unfoldable pub is_dots : Text → Bool
unfolding text_eq
is_dots s = text_eq s (quoted ".") || text_eq s (quoted "..")

unfoldable pub clean_segments : List Text → Bool
unfolding is_dots
clean_segments [] = false
clean_segments (s ∷ []) = not (is_dots s)
clean_segments (s ∷ t ∷ ts) = not (is_empty s) && not (is_dots s) && clean_segments (t ∷ ts)

unfoldable pub is_clean : Text → Bool
unfolding clean_segments segments has_prefix
is_clean path = has_prefix path (quoted "/") && clean_segments (segments path)

-- A wildcard does not match the end of a path with a slash.
unfoldable pub match_parts : List Segment → Bool → List Text → Option (List Text)
unfolding text_eq
match_parts [] false [] = some []
match_parts [] false (t ∷ ts) = none
match_parts [] true [] = none
match_parts [] true (t ∷ ts) = some []
match_parts (p ∷ ps) subtree [] = none
match_parts (literal s ∷ ps) subtree (t ∷ ts) =
    let rest = match_parts ps subtree ts in if text_eq t (quoted s) then rest else none
match_parts (wildcard ∷ ps) subtree (t ∷ ts) =
    let rest = Option.map (λ found. t ∷ found) (match_parts ps subtree ts) in
    if is_empty t && is_empty ts then none else rest

unfoldable pub is_method : Text → Option String → Bool
unfolding text_eq
is_method method none = true
is_method method (some m) =
    text_eq method (quoted m) || text_eq method (quoted "HEAD") && text_eq (quoted "GET") (quoted m)

module _ {ι} {Target : Type ι} where
  -- The first pattern that matches, whether the match is exact, and the handler.
  unfoldable pub is_exact : Pattern Target → List Text → Bool
  unfolding ends_with_slash
  is_exact p path = not p.subtree || ends_with_slash path && length p.parts + 1 == length path

  unfoldable pub first_match :
      Pattern Target
      → List Text
      → Option (List Text)
      → Option (Bool × Target)
      → Option (Bool × Target)
  unfolding is_exact
  first_match p path none rest = rest
  first_match p path (some found) rest = some (is_exact p path, p.handler found)

  unfoldable pub match_path : Text → List (Pattern Target) → List Text → Option (Bool × Target)
  unfolding first_match match_parts is_method
  match_path method [] path = none
  match_path method (p ∷ ps) path =
      let rest = match_path method ps path in
      let here = first_match p path (match_parts p.parts p.subtree path) rest in
      if is_method method p.method then here else rest

  -- Whether a pattern matches the path, whatever its method.
  unfoldable pub any_method : List (Pattern Target) → List Text → Bool
  unfolding match_parts
  any_method [] path = false
  any_method (p ∷ ps) path = is_some (match_parts p.parts p.subtree path) || any_method ps path

  unfoldable pub exactly : Option (Bool × Target) → Bool
  exactly none = false
  exactly (some (exact, target)) = exact

  unfoldable pub no_match : List (Pattern Target) → List Text → Found Target
  unfolding any_method ends_with_slash
  no_match ps path =
      if any_method ps path || not (ends_with_slash path) && any_method ps (path ++ [] ∷ [])
      then other_method
      else no_route

  unfoldable pub the_match :
      List (Pattern Target) → List Text → Option (Bool × Target) → Found Target
  unfolding no_match
  the_match ps path none = no_match ps path
  the_match ps path (some (exact, target)) = to target

  -- On a path that needs no cleaning.
  unfoldable pub find_clean : Text → List (Pattern Target) → List Text → Found Target
  unfolding the_match match_path exactly ends_with_slash
  find_clean method ps path =
      let found = match_path method ps path in
      let slashed = match_path method ps (path ++ [] ∷ []) in
      if not (exactly found) && not (ends_with_slash path) && exactly slashed
      then moved
      else the_match ps path found

  -- The mux: from the method and the escaped path to the handler. `unescape` is url.PathUnescape.
  unfoldable pub find : (Text → Text) → Text → List (Pattern Target) → Text → Found Target
  unfolding find_clean is_clean segments text_eq
  find unescape method ps path =
      if not (text_eq method (quoted "CONNECT")) && not (is_clean path)
      then moved
      else find_clean method ps (map unescape (segments path))
