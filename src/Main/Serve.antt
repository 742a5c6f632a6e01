-- ===== src/Main/Serve.antt =====
-- The server of main.go: each route of buildMux with its handler, on the shared state.
use cron_mon.Base.{List}
use cron_mon.Base.Text.{Text, quoted}
use cron_mon.Time.{Time}
use cron_mon.Model.{Channel}
use cron_mon.World.{World}
use cron_mon.Http.{Request, Response, redirect}
use cron_mon.System.{Services}
use cron_mon.Handler.Ping
use cron_mon.Handler.Check
use cron_mon.Handler.Channel
use cron_mon.Handler.Dashboard.{DashboardData, handle_check_list}
use cron_mon.Handler.Dashboard.Detail.{
  CheckDetailData, Page, handle_check_detail, handle_channel_list,
}
use cron_mon.Main.Routes.{
  Route, index, check_list, channel_list, static, check_detail, create_check, create_channel,
  update_check, delete_check, pause_check, attach_detach, delete_channel, Environment, Routed,
  pings, reaches, unauthorized, moved, no_route, other_method, route,
}

-- What buildMux is given.
pub record Application (Db : Type 0) : Type 1 where
  pub services : Services Db
  pub env : Environment
  pub admin_user : Text
  pub admin_pass : Text

-- What the client gets: a handler's response, a page, a file under /static/, or an answer of the
-- mux.
pub data Answer : Type 0 where
  says : Response → Answer
  list_page : DashboardData → Answer
  detail_page : Page CheckDetailData → Answer
  channels_page : Page (List Channel) → Answer
  asset : Answer
  redirects_permanently no_handler wrong_method : Answer

module _ {Db : Type 0} (app : Application Db) where
  open app.services use {
    cron, checks, channels, ping_rows, trusted_proxy, notifications, lib, rfc3339, base_url,
  }

  unfoldable pub saying : Response × World Db → Answer × World Db
  saying (response, w) = (says response, w)

  -- A page that was made from the state after its queries.
  with_detail : Page CheckDetailData × World Db → Answer × World Db
  with_detail (page, w) = (detail_page page, w)

  with_channels : Page (List Channel) × World Db → Answer × World Db
  with_channels (page, w) = (channels_page page, w)

  -- The handler of a route; `id` is a fresh UUID.
  unfoldable pub handle_route : Text → Time → Route → Request → World Db → Answer × World Db
  unfolding saying with_detail with_channels handle_check_list handle_check_detail
      handle_channel_list
  handle_route id now index r w = (says (redirect (quoted "/checks")), w)
  handle_route id now check_list r w = (list_page (handle_check_list base_url r w.cache), w)
  handle_route id now (check_detail key) r w =
      with_detail (handle_check_detail rfc3339 ping_rows channels notifications base_url key w)
  handle_route id now channel_list r w = with_channels (handle_channel_list channels w)
  handle_route id now static r w = (asset, w)
  handle_route id now create_check r w = saying (Check.handle_create checks cron id now r w)
  handle_route id now (update_check key) r w = saying (Check.handle_update checks cron key now r w)
  handle_route id now (delete_check key) r w = saying (Check.handle_delete checks key w)
  handle_route id now (pause_check key) r w = saying (Check.handle_pause checks key now w)
  handle_route id now (attach_detach key) r w =
      saying (Channel.handle_attach_detach channels key r w)
  handle_route id now create_channel r w = saying (Channel.handle_create channels lib now r w)
  handle_route id now (delete_channel key) r w = saying (Channel.handle_delete channels key w)

  -- buildMux: the answer to a request at the time `now`, and the state afterwards.
  unfoldable pub handle_routed : Text → Time → Request → Routed → World Db → Answer × World Db
  unfolding saying handle_route
  handle_routed id now r (pings type uuid) w =
      saying (Ping.handle cron checks channels ping_rows trusted_proxy uuid type now r w)
  handle_routed id now r (reaches target r') w = handle_route id now target r' w
  handle_routed id now r unauthorized w = (says Response.unauthorized, w)
  handle_routed id now r moved w = (redirects_permanently, w)
  handle_routed id now r no_route w = (no_handler, w)
  handle_routed id now r other_method w = (wrong_method, w)

  unfoldable pub serve : Text → Time → Request → World Db → Answer × World Db
  unfolding handle_routed route
  serve id now r w = handle_routed id now r (route app.env app.admin_user app.admin_pass r) w
