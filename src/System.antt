-- ===== src/System.antt =====
-- The running program of main.go as a sequence of events: requests and ticks, each of which reads
-- and writes the shared `World`.
pub mod Invariant
pub mod Steps
pub mod Queries
pub mod Draining
pub mod Liveness
pub mod Runs
pub mod Sqlite
pub mod Interleaved
use cron_mon.Base.{ℕ, ◌≡◌, Bool, Option, none, some, List, [], ◌∷◌}
use cron_mon.Base.Text.{Text}
use cron_mon.Time.{Time}
use cron_mon.Model.{Check, Ping, PingType, Channel, Notification, AlertEvent}
use cron_mon.Schedule.{Cron}
use cron_mon.Repository.{CheckRepository, ChannelRepository, PingRepository, NotificationRepository}
use cron_mon.Table.{Table}
use cron_mon.Alerts.{AlertChannel, receive}
use cron_mon.Notify.Worker.{Notifier, dispatch}
use cron_mon.Handler.Channel
use cron_mon.Handler.Channel.Validation.{Library}
use cron_mon.Handler.Dashboard.Detail.{handle_check_detail, handle_channel_list}
use cron_mon.Cache.Coherence.{CheckStore}
use cron_mon.World.{World, with_db}
use cron_mon.Scheduler.{evaluate_all, cleanup_old_pings}
use cron_mon.Handler.Ping
use cron_mon.Handler.Check
use cron_mon.Http.{Request}

-- The events, with what the environment chooses: the time, a fresh ID, the request.
pub data Event : Type 0 where
  pings : Text → PingType → Time → Request → Event
  evaluates : Time → Event
  cleans : Event
  creates : Text → Time → Request → Event
  updates : Text → Time → Request → Event
  pauses : Text → Time → Event
  deletes : Text → Event
  shows : Text → Event
  lists_channels : Event
  creates_channel : Time → Request → Event
  deletes_channel : Text → Event
  assigns : Text → Request → Event
  delivers : Time → Event

-- What run of main.go wires together.
pub record Services (Db : Type 0) : Type 1 where
  pub cron : Cron
  pub checks : CheckRepository Db
  pub channels : ChannelRepository Db
  pub ping_rows : PingRepository Db
  pub trusted_proxy : Bool
  pub notifications : NotificationRepository Db
  pub lib : Library
  pub rfc3339 : Time → Text
  -- The base URL without slashes at its end, as NewDashboardHandler keeps it.
  pub base_url : Text
  -- The worker's notifiers, as they send at a time, and its error for a type without one.
  pub notifiers : Time → Table Notifier
  pub no_notifier : Text → Text

module _ {Db : Type 0} (s : Services Db) where
  open s use {cron, checks, channels, ping_rows, trusted_proxy, notifications}

  -- The worker takes the oldest event from the channel and delivers it at the time `now`.
  unfoldable pub deliver : Time → Option (AlertEvent × AlertChannel) → World Db → World Db
  unfolding dispatch
  deliver now none w = w
  deliver now (some (event, ch)) w =
      let db = dispatch (s.notifiers now) s.no_notifier notifications now event w.cache.db in
      record (with_db w db) { alerts = ch }

  unfoldable pub step : Event → World Db → World Db
  step (pings uuid type now r) w =
      (Ping.handle cron checks channels ping_rows trusted_proxy uuid type now r w).1
  step (evaluates now) w = evaluate_all checks channels now w
  step cleans w = cleanup_old_pings ping_rows w
  step (creates id now r) w = (Check.handle_create checks cron id now r w).1
  step (updates id now r) w = (Check.handle_update checks cron id now r w).1
  step (pauses id now) w = (Check.handle_pause checks id now w).1
  step (deletes id) w = (Check.handle_delete checks id w).1
  step (shows id) w =
      (handle_check_detail s.rfc3339 ping_rows channels notifications s.base_url id w).1
  step lists_channels w = (handle_channel_list channels w).1
  step (creates_channel now r) w = (Channel.handle_create channels s.lib now r w).1
  step (deletes_channel id) w = (Channel.handle_delete channels id w).1
  step (assigns id r) w = (Channel.handle_attach_detach channels id r w).1
  step (delivers now) w = deliver now (receive w.alerts) w

  unfoldable pub run : List Event → World Db → World Db
  run [] w = w
  run (e ∷ es) w = run es (step e w)

  -- The queries on channels, pings and notifications leave the rows of the checks alone.
  pub record LeavesChecks (laws : CheckStore checks) : Type 0 where
    pub by_channels :
        (id : Text) (db : Db) (k : Text)
        → laws.rows (channels.list_by_check_id id db).1 k ≡ laws.rows db k
    pub by_create :
        (p : Ping) (db : Db) (k : Text) → laws.rows (ping_rows.create p db).1 k ≡ laws.rows db k
    pub by_delete_oldest :
        (id : Text) (n : ℕ) (db : Db) (k : Text)
        → laws.rows (ping_rows.delete_oldest id n db).1 k ≡ laws.rows db k
    pub by_list_pings :
        (id : Text) (n : ℕ) (db : Db) (k : Text)
        → laws.rows (ping_rows.list_by_check_id id n db).1 k ≡ laws.rows db k
    pub by_create_channel :
        (ch : Channel) (db : Db) (k : Text) → laws.rows (channels.create ch db).1 k ≡ laws.rows db k
    pub by_get_channel :
        (id : ℕ) (db : Db) (k : Text) → laws.rows (channels.get_by_id id db).1 k ≡ laws.rows db k
    pub by_list_channels :
        (db : Db) (k : Text) → laws.rows (channels.list_all db).1 k ≡ laws.rows db k
    pub by_delete_channel :
        (id : ℕ) (db : Db) (k : Text) → laws.rows (channels.delete id db).1 k ≡ laws.rows db k
    pub by_attach :
        (id : Text) (ch : ℕ) (db : Db) (k : Text)
        → laws.rows (channels.attach_to_check id ch db).1 k ≡ laws.rows db k
    pub by_detach :
        (id : Text) (ch : ℕ) (db : Db) (k : Text)
        → laws.rows (channels.detach_from_check id ch db).1 k ≡ laws.rows db k
    pub by_create_notification :
        (n : Notification) (db : Db) (k : Text)
        → laws.rows (notifications.create n db).1 k ≡ laws.rows db k
    pub by_list_notifications :
        (id : Text) (n : ℕ) (db : Db) (k : Text)
        → laws.rows (notifications.list_by_check_id id n db).1 k ≡ laws.rows db k
