-- ===== src/Scheduler/Calls.antt =====
-- Which calls of the repositories a pass of internal/scheduler/scheduler.go makes, and that they
-- succeed.
use cron_mon.Base.{◌≡◌, true, List, [], ◌∷◌, map, ok}
use cron_mon.Base.Text.{Text}
use cron_mon.Time.{Time}
use cron_mon.Model.{Check, Channel}
use cron_mon.Repository.{CheckRepository, ChannelRepository}
use cron_mon.Table.{values}
use cron_mon.Cache.{StateCache, with_write_lock}
use cron_mon.World.{World}
use cron_mon.Scheduler.{is_overdue, mark_down, visit, evaluate}

module _ {Db : Type 0} (checks : CheckRepository Db) (now : Time) where
  -- Each update that the loop over the checks makes, on the database that it finds.
  abbrev pub UpdatesSucceed : List Check → StateCache Db → Type 0
  UpdatesSucceed [] sc = Unit {0}
  UpdatesSucceed (c ∷ cs) sc =
      (is_overdue now c ≡ true → (checks.update (mark_down now c) sc.db).0 ≡ ok tt)
      × UpdatesSucceed cs (visit checks now c sc).1

  -- Each update of a pass.
  abbrev pub Updates : World Db → Type 0
  Updates w = UpdatesSucceed (values w.cache.checks) w.cache

module _ {Db : Type 0} (channels : ChannelRepository Db) (subscribed : Text → List Channel) where
  -- Queries for the channels of the checks of these IDs, one after the other.
  abbrev pub QueriesSucceed : List Text → Db → Type 0
  QueriesSucceed [] db = Unit {0}
  QueriesSucceed (id ∷ ids) db =
      ((channels.list_by_check_id id db).0 ≡ ok (subscribed id))
      × QueriesSucceed ids (channels.list_by_check_id id db).1

  -- The query for each check that a pass has taken down, after its updates.
  abbrev pub Queries : CheckRepository Db → Time → World Db → Type 0
  Queries checks now w =
      let (ts, sc) = with_write_lock (evaluate checks now) w.cache in
      QueriesSucceed (map (λ c. c.id) ts) sc.db
