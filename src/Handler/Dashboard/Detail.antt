-- ===== src/Handler/Dashboard/Detail.antt =====
-- HandleCheckDetail and HandleChannelList of internal/handler/dashboard.go: the queries, and the
-- data that the templates are given.
use cron_mon.Base.{ℕ, Option, none, some, List, map, Result, ok, err}
use cron_mon.Base.Text.{Text}
use cron_mon.Time.{Time}
use cron_mon.Model.{Check, Channel, Notification}
use cron_mon.Repository.{PingRepository, ChannelRepository, NotificationRepository}
use cron_mon.Cache.{get}
use cron_mon.World.{World, with_db}
use cron_mon.Handler.Dashboard.{ping_url}
use cron_mon.Handler.Dashboard.Squares.{PingSquare, build_ping_squares}

pub record CheckDetailData : Type 0 where
  pub check : Check
  pub ping_url : Text
  pub ping_squares : List PingSquare
  pub all_channels : List Channel
  -- The keys of the map that hold true.
  pub attached_channel_ids : List ℕ
  pub notifications : List Notification

-- A page, or one of the two errors.
pub data Page (Data : Type 0) : Type 0 where
  shown : Data → Page Data
  missing failing : Page Data

-- A query, and what follows if it succeeds.
unfoldable pub querying {ι} :
    {Db : Type 0} {A : Type ι} {Data : Type 0}
    → Result A × Db
    → (A → Db → Page Data × Db)
    → Page Data × Db
querying (err e, db) next = (failing, db)
querying (ok a, db) next = next a db

abbrev pub id_of : Channel → ℕ
id_of ch = ch.id

module _ {Db : Type 0} (rfc3339 : Time → Text) (pings : PingRepository Db)
    (channels : ChannelRepository Db) (notifications : NotificationRepository Db) where
  load_detail : Text → Text → Check → Db → Page CheckDetailData × Db
  unfolding querying build_ping_squares
  load_detail base_url id c db = querying (pings.list_by_check_id id 30 db) (λ newest db1.
      querying (channels.list_all db1) (λ all db2.
        querying (channels.list_by_check_id id db2) (λ attached db3.
          querying (notifications.list_by_check_id id 10 db3) (λ latest db4. (
            shown (record {
              check = c;
              ping_url = ping_url base_url c.id;
              ping_squares = build_ping_squares rfc3339 newest;
              all_channels = all;
              attached_channel_ids = map id_of attached;
              notifications = latest;
            }),
            db4,
          )))))

  unfoldable pub show_detail :
      Text → Text → Option Check → World Db → Page CheckDetailData × World Db
  unfolding load_detail
  show_detail base_url id none w = (missing, w)
  show_detail base_url id (some c) w =
      let (page, db) = load_detail base_url id c w.cache.db in (page, with_db w db)

  -- HandleCheckDetail, with the path's {id}.
  unfoldable pub handle_check_detail : Text → Text → World Db → Page CheckDetailData × World Db
  unfolding show_detail
  handle_check_detail base_url id w = show_detail base_url id (get id w.cache) w

-- HandleChannelList
unfoldable pub handle_channel_list :
    {Db : Type 0} → ChannelRepository Db → World Db → Page (List Channel) × World Db
unfolding querying
handle_channel_list channels w =
    let (page, db) = querying (channels.list_all w.cache.db) (λ all db. (shown all, db)) in
    (page, with_db w db)
