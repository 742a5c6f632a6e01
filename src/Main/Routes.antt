-- ===== src/Main/Routes.antt =====
-- buildMux of main.go: its muxes, the authentication and the method override in front of one of
-- them.
use cron_mon.Base.{ℕ, String, true, false, Option, none, some, List, [], ◌∷◌, if◌then◌else◌}
use cron_mon.Base.Text.{Text}
use cron_mon.Model.{PingType, success, start, fail}
use cron_mon.Http.{Request}
use cron_mon.Middleware.{authorized, method_override}
use cron_mon.Main.Mux.{Segment, literal, wildcard, Pattern, Found, find}

-- The handlers behind the authentication, with what their patterns take from the path.
pub data Route : Type 0 where
  index check_list channel_list static : Route
  check_detail : Text → Route
  create_check create_channel : Route
  update_check delete_check pause_check attach_detach delete_channel : Text → Route

unfoldable pub only : List Text → Text
only [] = []
only (t ∷ ts) = t

-- A pattern with no wildcard, and one whose handler takes the first.
pattern_of : {Target : Type 0} → String → List Segment → Target → Pattern Target
pattern_of method parts target = record {
  method = some method;
  parts = parts;
  subtree = false;
  handler = λ found. target;
}

unfoldable pub pattern_with :
    {Target : Type 0} → String → List Segment → (Text → Target) → Pattern Target
unfolding only
pattern_with method parts target = record {
  method = some method;
  parts = parts;
  subtree = false;
  handler = λ found. target (only found);
}

-- A pattern that ends in a slash.
unfoldable pub below : {Target : Type 0} → Option String → List Segment → Target → Pattern Target
below method parts target = record {
  method = method;
  parts = parts;
  subtree = true;
  handler = λ found. target;
}

-- pingMux: the kind of the ping, and the ID.
unfoldable pub ping_mux : List (Pattern (PingType × Text))
unfolding pattern_with
ping_mux =
    pattern_with "GET" (literal "ping" ∷ wildcard ∷ []) (λ id. (success, id))
    ∷ pattern_with "GET" (literal "ping" ∷ wildcard ∷ literal "start" ∷ []) (λ id. (start, id))
    ∷ pattern_with "GET" (literal "ping" ∷ wildcard ∷ literal "fail" ∷ []) (λ id. (fail, id))
    ∷ []

-- authMux; "GET /" comes last.
unfoldable pub auth_mux : List (Pattern Route)
unfolding pattern_of pattern_with below
auth_mux =
    pattern_of "GET" (literal "checks" ∷ []) check_list
    ∷ pattern_with "GET" (literal "checks" ∷ wildcard ∷ []) check_detail
    ∷ pattern_of "GET" (literal "channels" ∷ []) channel_list
    ∷ below (some "GET") (literal "static" ∷ []) static
    ∷ pattern_of "POST" (literal "checks" ∷ []) create_check
    ∷ pattern_with "POST" (literal "checks" ∷ wildcard ∷ []) update_check
    ∷ pattern_with "POST" (literal "checks" ∷ wildcard ∷ literal "delete" ∷ []) delete_check
    ∷ pattern_with "POST" (literal "checks" ∷ wildcard ∷ literal "pause" ∷ []) pause_check
    ∷ pattern_with "POST" (literal "checks" ∷ wildcard ∷ literal "channels" ∷ []) attach_detach
    ∷ pattern_of "POST" (literal "channels" ∷ []) create_channel
    ∷ pattern_with "POST" (literal "channels" ∷ wildcard ∷ literal "delete" ∷ []) delete_channel
    ∷ below (some "GET") [] index
    ∷ []

-- The handlers of the mux root.
pub data Side : Type 0 where
  ping_side protected_side : Side

unfoldable pub root_mux : List (Pattern Side)
unfolding below
root_mux = below none (literal "ping" ∷ []) ping_side ∷ below none [] protected_side ∷ []

-- Where a request ends: at a handler, with the request that it gets, or before one.
pub data Routed : Type 0 where
  pings : PingType → Text → Routed
  reaches : Route → Request → Routed
  unauthorized moved no_route other_method : Routed

-- The environment: crypto/sha256, and the path of a request in its escaped form with the function
-- that takes a segment's escapes away.
pub record Environment : Type 0 where
  pub sha256 : Text → List ℕ
  pub escaped_path : Request → Text
  pub unescape : Text → Text

module _ (env : Environment) (user pass : Text) where
  open env use {sha256, escaped_path, unescape}

  unfoldable pub reached_ping : Found (PingType × Text) → Routed
  reached_ping (Found.to (type, id)) = pings type id
  reached_ping Found.moved = moved
  reached_ping Found.no_route = no_route
  reached_ping Found.other_method = other_method

  reached_route : Request → Found Route → Routed
  reached_route r (Found.to route) = reaches route r
  reached_route r Found.moved = moved
  reached_route r Found.no_route = no_route
  reached_route r Found.other_method = other_method

  -- methodOverride(authMux)
  unfoldable pub overridden : Request → Routed
  unfolding reached_route find auth_mux method_override
  overridden r =
      let r' = method_override r in
      reached_route r' (find unescape r'.method auth_mux (escaped_path r'))

  unfoldable pub protected_handler : Request → Routed
  unfolding authorized overridden
  protected_handler r = if authorized sha256 user pass r then overridden r else unauthorized

  unfoldable pub reached_side : Request → Found Side → Routed
  unfolding reached_ping find ping_mux protected_handler
  reached_side r (Found.to ping_side) =
      reached_ping (find unescape r.method ping_mux (escaped_path r))
  reached_side r (Found.to protected_side) = protected_handler r
  reached_side r Found.moved = moved
  reached_side r Found.no_route = no_route
  reached_side r Found.other_method = other_method

  -- buildMux, but for the handlers.
  unfoldable pub route : Request → Routed
  unfolding reached_side find root_mux
  route r = reached_side r (find unescape r.method root_mux (escaped_path r))
