-- ===== src/System/Draining.antt =====
-- The worker of internal/notify/worker.go at the end of the program: main.go closes the channel
-- and waits until the worker has taken every event that is left.
use cron_mon.Base.{ℕ, zero, suc, ◌≡◌, ◌<◌, refl, Option, none, some, List, [], ◌∷◌, arith, length}
use cron_mon.Time.{Time}
use cron_mon.Model.{AlertEvent}
use cron_mon.Alerts.{receive}
use cron_mon.Alerts.Capacity.{Fits}
use cron_mon.World.{World, with_db}
use cron_mon.Notify.Worker.{dispatch}
use cron_mon.System.{Services, deliver}

-- The events with the times at which they are sent; `clock` tells the time by the rounds that are
-- left.
unfoldable pub stamped : ℕ → (ℕ → Time) → List AlertEvent → List (Time × AlertEvent)
stamped zero clock events = []
stamped (suc n) clock [] = []
stamped (suc n) clock (event ∷ events) = (clock n, event) ∷ stamped n clock events

module _ {Db : Type 0} (s : Services Db) (clock : ℕ → Time) where
  -- What the worker makes of events that it sends one after the other, each with the notifiers at
  -- its time.
  unfoldable pub deliver_all : List (Time × AlertEvent) → Db → Db
  unfolding dispatch
  deliver_all [] db = db
  deliver_all ((now, event) ∷ events) db =
      deliver_all events (dispatch (s.notifiers now) s.no_notifier s.notifications now event db)

  -- The worker's loop once the channel is closed, for at most n rounds; `none` if they do not
  -- suffice.
  unfoldable pub work_off : ℕ → World Db → Option (World Db)
  unfolding receive deliver
  work_off zero w = none
  work_off (suc n) w = elim (receive w.alerts) [
    | none ↦ some w
    | some received ↦ work_off n (deliver s (clock n) (some received) w)
  ]

  -- The state with the channel empty and the waiting events delivered.
  unfoldable pub drained : ℕ → World Db → World Db
  drained n w =
      let events = stamped n clock w.alerts.queue in
      record w {
        cache = record w.cache { db = deliver_all events w.cache.db };
        alerts = record w.alerts { queue = [] };
      }

  pub work_off-rounds :
      (n : ℕ) (queue : List AlertEvent) (capacity : ℕ) (w : World Db)
      → length queue < n
      → work_off n (record w { alerts = record { queue = queue; capacity = capacity } })
        ≡ some (drained n (record w { alerts = record { queue = queue; capacity = capacity } }))
  unfolding work_off receive deliver drained stamped deliver_all
  work_off-rounds zero queue capacity w h = ground arith
  work_off-rounds (suc n) [] capacity w h = refl
  work_off-rounds (suc n) (event ∷ queue) capacity w h =
      work_off-rounds n queue capacity
        (with_db w (
          dispatch (s.notifiers (clock n)) s.no_notifier s.notifications (clock n) event
            w.cache.db))
        (omega arith)

  -- Once the channel is closed, the worker's loop ends after one round for each waiting event and
  -- one more, so after at most 65 rounds for the channel of main.go: then the channel is empty,
  -- and every event that waited was dispatched, each once and in the order in which they were
  -- queued.
  pub work_off-drained :
      (w : World Db)
      → Fits w.alerts
      → work_off (suc w.alerts.capacity) w ≡ some (drained (suc w.alerts.capacity) w)
  work_off-drained w fits =
      work_off-rounds (suc w.alerts.capacity) w.alerts.queue w.alerts.capacity w (omega arith)
