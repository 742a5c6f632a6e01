-- ===== src/Main/Access.antt =====
-- What a request without valid credentials can do to the server of main.go.
use cron_mon.Base.{◌≡◌, ◌⊎◌, refl, inl, inr, Bool, true, false}
use cron_mon.Base.Text.{Text}
use cron_mon.Time.{Time}
use cron_mon.Model.{PingType}
use cron_mon.World.{World}
use cron_mon.Http.{Request, Response}
use cron_mon.Middleware.{authorized}
use cron_mon.Handler.Ping
use cron_mon.Main.Mux.{Found}
use cron_mon.Main.Routes.{
  Environment, Routed, pings, reaches, unauthorized, moved, no_route, other_method, Side, ping_side,
  protected_side, reached_ping, reached_side, protected_handler, route,
}
use cron_mon.Main.Serve.{
  Application, Answer, says, redirects_permanently, no_handler, wrong_method, saying, handle_routed,
  serve,
}

-- What a request that was not let in is answered with.
abbrev pub is_refusal : Answer → Bool
is_refusal (says Response.unauthorized) = true
is_refusal redirects_permanently = true
is_refusal no_handler = true
is_refusal wrong_method = true
is_refusal _ = false

-- A request that ended before the handlers, or at those of the pings.
abbrev pub stays_outside : Routed → Bool
stays_outside (reaches target r) = false
stays_outside _ = true

module _ (env : Environment) (user pass : Text) where
  reached_ping-outside :
      (f : Found (PingType × Text)) → stays_outside (reached_ping env user pass f) ≡ true
  unfolding reached_ping
  reached_ping-outside (Found.to target) = refl
  reached_ping-outside Found.moved = refl
  reached_ping-outside Found.no_route = refl
  reached_ping-outside Found.other_method = refl

  reached_side-outside :
      (r : Request) (f : Found Side)
      → authorized env.sha256 user pass r ≡ false
      → stays_outside (reached_side env user pass r f) ≡ true
  unfolding reached_side protected_handler
  reached_side-outside r (Found.to ping_side) h = reached_ping-outside _
  reached_side-outside r (Found.to protected_side) h = rw h refl
  reached_side-outside r Found.moved h = refl
  reached_side-outside r Found.no_route h = refl
  reached_side-outside r Found.other_method h = refl

  route-outside :
      (r : Request)
      → authorized env.sha256 user pass r ≡ false
      → stays_outside (route env user pass r) ≡ true
  unfolding route
  route-outside r h = reached_side-outside r _ h

module _ {Db : Type 0} (app : Application Db) where
  open app.services use {cron, checks, channels, ping_rows, trusted_proxy}

  -- The request pinged, or it was refused and changed nothing.
  abbrev pub PingedOrRefused : Time → Request → World Db → Answer × World Db → Type 0
  PingedOrRefused now r w (answer, w') =
      ((type : PingType) × (uuid : Text) × (route app.env app.admin_user app.admin_pass r
          ≡ pings type uuid)
        × (w' ≡ (Ping.handle cron checks channels ping_rows trusted_proxy uuid type now r w).1))
      ⊎ ((is_refusal answer ≡ true) × (w' ≡ w))

  handle_routed-PingedOrRefused :
      (id : Text) (now : Time) (r : Request) (w : World Db) (routed : Routed)
      → route app.env app.admin_user app.admin_pass r ≡ routed
      → stays_outside routed ≡ true
      → PingedOrRefused now r w (handle_routed app id now r routed w)
  unfolding handle_routed saying
  handle_routed-PingedOrRefused id now r w (pings type uuid) e h = inl (type, uuid, e, refl)
  handle_routed-PingedOrRefused id now r w (reaches target r') e h = cc
  handle_routed-PingedOrRefused id now r w unauthorized e h = inr (refl, refl)
  handle_routed-PingedOrRefused id now r w moved e h = inr (refl, refl)
  handle_routed-PingedOrRefused id now r w no_route e h = inr (refl, refl)
  handle_routed-PingedOrRefused id now r w other_method e h = inr (refl, refl)

  -- A request without the administrator's credentials does nothing but a ping: it is answered by
  -- the ping handler, or else refused by the authentication or by a mux, and then the cache, the
  -- database and the alerts are as they were.
  pub serve-PingedOrRefused :
      (id : Text) (now : Time) (r : Request) (w : World Db)
      → authorized app.env.sha256 app.admin_user app.admin_pass r ≡ false
      → PingedOrRefused now r w (serve app id now r w)
  unfolding serve
  serve-PingedOrRefused id now r w h =
      handle_routed-PingedOrRefused id now r w _ refl
        (route-outside app.env app.admin_user app.admin_pass r h)
