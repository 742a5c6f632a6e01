-- ===== src/Main/Requests.antt =====
-- The requests to the server of main.go as events of System.
use cron_mon.Base.{◌≡◌, refl, List, [], ◌∷◌}
use cron_mon.Base.Text.{Text}
use cron_mon.Time.{Time}
use cron_mon.World.{World}
use cron_mon.Http.{Request}
use cron_mon.Cache.Coherence.{CheckStore}
use cron_mon.System.{
  Services, LeavesChecks, Event, creates, updates, pauses, deletes, shows, lists_channels,
  creates_channel, deletes_channel, assigns, step, run,
}
use cron_mon.System as System
use cron_mon.System.Invariant.{Inv}
use cron_mon.System.Runs.{run-Inv}
use cron_mon.Main.Routes.{
  Route, index, check_list, channel_list, static, check_detail, create_check, create_channel,
  update_check, delete_check, pause_check, attach_detach, delete_channel, Routed, pings, reaches,
  unauthorized, moved, no_route, other_method, route,
}
use cron_mon.Main.Serve.{Application, saying, handle_route, handle_routed, serve}

-- What a route does to the shared state; `id` is the fresh UUID.
unfoldable pub events_of_route : Text → Time → Route → Request → List Event
events_of_route id now index r = []
events_of_route id now check_list r = []
events_of_route id now (check_detail key) r = shows key ∷ []
events_of_route id now channel_list r = lists_channels ∷ []
events_of_route id now static r = []
events_of_route id now create_check r = creates id now r ∷ []
events_of_route id now (update_check key) r = updates key now r ∷ []
events_of_route id now (delete_check key) r = deletes key ∷ []
events_of_route id now (pause_check key) r = pauses key now ∷ []
events_of_route id now (attach_detach key) r = assigns key r ∷ []
events_of_route id now create_channel r = creates_channel now r ∷ []
events_of_route id now (delete_channel key) r = deletes_channel key ∷ []

unfoldable pub events_of : Text → Time → Request → Routed → List Event
unfolding events_of_route
events_of id now r (pings type uuid) = System.pings uuid type now r ∷ []
events_of id now r (reaches target r') = events_of_route id now target r'
events_of id now r unauthorized = []
events_of id now r moved = []
events_of id now r no_route = []
events_of id now r other_method = []

module _ {Db : Type 0} (app : Application Db) where
  handle_route-run :
      (id : Text) (now : Time) (target : Route) (r : Request) (w : World Db)
      → (handle_route app id now target r w).1
        ≡ run app.services (events_of_route id now target r) w
  unfolding handle_route run step events_of_route saying
  handle_route-run id now index r w = refl
  handle_route-run id now check_list r w = refl
  handle_route-run id now (check_detail key) r w = refl
  handle_route-run id now channel_list r w = refl
  handle_route-run id now static r w = refl
  handle_route-run id now create_check r w = refl
  handle_route-run id now (update_check key) r w = refl
  handle_route-run id now (delete_check key) r w = refl
  handle_route-run id now (pause_check key) r w = refl
  handle_route-run id now (attach_detach key) r w = refl
  handle_route-run id now create_channel r w = refl
  handle_route-run id now (delete_channel key) r w = refl

  handle_routed-run :
      (id : Text) (now : Time) (r : Request) (routed : Routed) (w : World Db)
      → (handle_routed app id now r routed w).1 ≡ run app.services (events_of id now r routed) w
  unfolding handle_routed run step events_of saying
  handle_routed-run id now r (pings type uuid) w = refl
  handle_routed-run id now r (reaches target r') w = handle_route-run id now target r' w
  handle_routed-run id now r unauthorized w = refl
  handle_routed-run id now r moved w = refl
  handle_routed-run id now r no_route w = refl
  handle_routed-run id now r other_method w = refl

  serve-run :
      (id : Text) (now : Time) (r : Request) (w : World Db)
      → (serve app id now r w).1
        ≡ run app.services (events_of id now r (route app.env app.admin_user app.admin_pass r)) w
  unfolding serve
  serve-run id now r w =
      handle_routed-run id now r (route app.env app.admin_user app.admin_pass r) w

  -- Every HTTP request, whatever its method, path, credentials and form, and whichever database
  -- calls fail, keeps the cache keyed by ID and in agreement with the database, the alert channel
  -- within its capacity, and each cached check paused exactly if it has saved a status to restore.
  pub serve-Inv :
      (laws : CheckStore app.services.checks) (id : Text) (now : Time) (r : Request) (w : World Db)
      → LeavesChecks app.services laws
      → Inv app.services laws w
      → Inv app.services laws (serve app id now r w).1
  serve-Inv laws id now r w leaves v =
      rw (serve-run id now r w) (run-Inv app.services laws leaves _ w v)
