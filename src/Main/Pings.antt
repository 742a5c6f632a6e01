-- ===== src/Main/Pings.antt =====
-- The ping routes of buildMux in main.go: the URLs that the mails and the dashboard show.
use cron_mon.Base.{ℕ, ◌≡◌, refl, ap, ◌∙◌, true, false, List, [], ◌∷◌, ◌++◌, map, arith, ◌==◌}
use cron_mon.Base.Text.{Text, text_eq, is_empty, quoted, contains, split, has_prefix}
use cron_mon.Time.{Time}
use cron_mon.Model.{PingType, success, start, fail}
use cron_mon.Http.{Request}
use cron_mon.World.{World}
use cron_mon.Handler.Ping
use cron_mon.Main.Mux.{
  Pattern, Found, find, is_dots, is_clean, is_method, is_exact, match_parts, match_path,
  first_match, clean_segments, segments, drop_first, ends_with_slash, find_clean, exactly,
  the_match,
}
use cron_mon.Main.Routes.{
  Environment, ping_side, pings, root_mux, ping_mux, pattern_with, below, only, reached_ping,
  reached_side, route,
}
use cron_mon.Main.Serve.{Application, serve, handle_routed, saying}

split-one : (sep : ℕ) (s : Text) → contains sep s ≡ false → split sep s ≡ s ∷ []
unfolding split contains
split-one sep [] h = refl
split-one sep (c ∷ s) h =
    let tail : contains sep s ≡ false = ground arith in
    let other : (c == sep) ≡ false = ground arith in rw (other, split-one sep s tail) refl

split-word :
    (sep : ℕ) (s rest : Text)
    → contains sep s ≡ false
    → split sep (s ++ sep ∷ rest) ≡ s ∷ split sep rest
unfolding split contains
split-word sep [] rest h = let same : (sep == sep) ≡ true = ground arith in rw same refl
split-word sep (c ∷ s) rest h =
    let tail : contains sep s ≡ false = ground arith in
    let other : (c == sep) ≡ false = ground arith in rw (other, split-word sep s rest tail) refl

-- An ID that is a segment of a path as it stands, as UUIDs are.
pub record IsSegment (id : Text) : Type 0 where
  pub unslashed : contains b'/' id ≡ false
  pub unescaped : contains b'%' id ≡ false
  pub filled : is_empty id ≡ false
  pub undotted : is_dots id ≡ false

-- What follows the ID in the path.
abbrev pub words : PingType → List Text
words success = []
words start = quoted "start" ∷ []
words fail = quoted "fail" ∷ []

abbrev pub ping_path : PingType → Text → Text
ping_path success id = quoted "/ping/" ++ id
ping_path start id = quoted "/ping/" ++ (id ++ quoted "/start")
ping_path fail id = quoted "/ping/" ++ (id ++ quoted "/fail")

segments-ping_path :
    (type : PingType) (id : Text)
    → contains b'/' id ≡ false
    → segments (ping_path type id) ≡ quoted "ping" ∷ id ∷ words type
unfolding segments drop_first split
segments-ping_path success id h = rw (split-one b'/' id h) refl
segments-ping_path start id h = rw (split-word b'/' id (quoted "start") h) refl
segments-ping_path fail id h = rw (split-word b'/' id (quoted "fail") h) refl

clean :
    (path : Text) (parts : List Text)
    → has_prefix path (quoted "/") ≡ true
    → segments path ≡ parts
    → clean_segments parts ≡ true
    → is_clean path ≡ true
unfolding is_clean
clean path parts slash split h = rw (slash, split, h) refl

is_clean-ping_path :
    (type : PingType) (id : Text) → IsSegment id → is_clean (ping_path type id) ≡ true
unfolding clean_segments has_prefix is_dots text_eq
is_clean-ping_path success id seg =
    clean (ping_path success id) _ refl (segments-ping_path success id seg.unslashed)
      (rw seg.undotted refl)
is_clean-ping_path start id seg =
    clean (ping_path start id) _ refl (segments-ping_path start id seg.unslashed)
      (rw (seg.filled, seg.undotted) refl)
is_clean-ping_path fail id seg =
    clean (ping_path fail id) _ refl (segments-ping_path fail id seg.unslashed)
      (rw (seg.filled, seg.undotted) refl)

-- Both muxes on the segments.
root_found :
    (type : PingType) (c : ℕ) (s : Text)
    → find_clean (quoted "GET") root_mux (quoted "ping" ∷ (c ∷ s) ∷ words type) ≡ Found.to ping_side
unfolding find_clean match_path is_method match_parts first_match is_exact exactly the_match
    ends_with_slash root_mux below text_eq
root_found success c s = refl
root_found start c s = refl
root_found fail c s = refl

ping_found :
    (type : PingType) (c : ℕ) (s : Text)
    → find_clean (quoted "GET") ping_mux (quoted "ping" ∷ (c ∷ s) ∷ words type)
      ≡ Found.to (type, c ∷ s)
unfolding find_clean match_path is_method match_parts first_match is_exact exactly the_match
    ends_with_slash ping_mux pattern_with only text_eq
ping_found success c s = refl
ping_found start c s = refl
ping_found fail c s = refl

-- What is documented of url.PathUnescape: a text without a percent sign is left alone.
abbrev pub Unescapes : (Text → Text) → Type 0
Unescapes unescape = (s : Text) → contains b'%' s ≡ false → unescape s ≡ s

map-unescape :
    (unescape : Text → Text) (type : PingType) (id : Text)
    → Unescapes unescape
    → contains b'%' id ≡ false
    → map unescape (quoted "ping" ∷ id ∷ words type) ≡ quoted "ping" ∷ id ∷ words type
unfolding contains
map-unescape unescape success id keeps plain = rw (keeps (quoted "ping") refl, keeps id plain) refl
map-unescape unescape start id keeps plain =
    rw (keeps (quoted "ping") refl, keeps id plain, keeps (quoted "start") refl) refl
map-unescape unescape fail id keeps plain =
    rw (keeps (quoted "ping") refl, keeps id plain, keeps (quoted "fail") refl) refl

module _ {ι} {Target : Type ι} (unescape : Text → Text) (ps : List (Pattern Target)) where
  find-clean :
      (path : Text) (parts : List Text)
      → is_clean path ≡ true
      → map unescape (segments path) ≡ parts
      → find unescape (quoted "GET") ps path ≡ find_clean (quoted "GET") ps parts
  unfolding find text_eq
  find-clean path parts c e = rw c (ap (λ l. find_clean (quoted "GET") ps l) e)

  find-ping_path :
      (type : PingType) (id method path : Text)
      → Unescapes unescape
      → IsSegment id
      → method ≡ quoted "GET"
      → path ≡ ping_path type id
      → find unescape method ps path
        ≡ find_clean (quoted "GET") ps (quoted "ping" ∷ id ∷ words type)
  find-ping_path type id method path keeps seg get same =
      ap (λ m. find unescape m ps path) get
      ∙ ap (λ p. find unescape (quoted "GET") ps p) same
      ∙ find-clean (ping_path type id) _ (is_clean-ping_path type id seg) (
          ap (map unescape) (segments-ping_path type id seg.unslashed)
          ∙ map-unescape unescape type id keeps seg.unescaped)

module _ (env : Environment) (user pass : Text) where
  route-ping_path :
      (type : PingType) (id : Text) (r : Request)
      → Unescapes env.unescape
      → IsSegment id
      → r.method ≡ quoted "GET"
      → env.escaped_path r ≡ ping_path type id
      → route env user pass r ≡ pings type id
  unfolding route reached_side reached_ping
  route-ping_path type [] r keeps seg get path = cc (seg.filled)
  route-ping_path type (c ∷ s) r keeps seg get path =
      let outer =
        find-ping_path env.unescape root_mux type (c ∷ s) r.method (env.escaped_path r) keeps seg
          get path in
      let inner =
        find-ping_path env.unescape ping_mux type (c ∷ s) r.method (env.escaped_path r) keeps seg
          get path in
      ap (reached_side env user pass r) (outer ∙ root_found type c s)
      ∙ ap (reached_ping env user pass) (inner ∙ ping_found type c s)

-- A GET of /ping/<id>, /ping/<id>/start or /ping/<id>/fail, with or without credentials, is
-- answered by the ping handler for a success, a start or a fail of the check with this ID, on the
-- state that it finds. The ID is a segment of the path as it stands: not empty, not "." or "..",
-- with neither a slash nor a percent sign. What is assumed of url.PathUnescape is that it leaves
-- a text without a percent sign alone.
pub serve-ping_path :
    {Db : Type 0} (app : Application Db) (fresh : Text) (now : Time) (type : PingType) (id : Text)
    (r : Request) (w : World Db)
    → Unescapes app.env.unescape
    → IsSegment id
    → r.method ≡ quoted "GET"
    → app.env.escaped_path r ≡ ping_path type id
    → serve app fresh now r w
      ≡ saying app (
          Ping.handle app.services.cron app.services.checks app.services.channels
            app.services.ping_rows app.services.trusted_proxy id type now r w)
unfolding serve handle_routed
serve-ping_path app fresh now type id r w keeps seg get path =
    ap (λ routed. handle_routed app fresh now r routed w)
      (route-ping_path app.env app.admin_user app.admin_pass type id r keeps seg get path)
