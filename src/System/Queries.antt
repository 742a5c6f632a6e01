-- ===== src/System/Queries.antt =====
-- The events of System that only query the database, under the invariant of the shared state: the
-- pages of internal/handler/dashboard.go, the edits of internal/handler/channel.go, and the
-- deliveries of internal/notify/worker.go.
use cron_mon.Base.{
  ℕ, ◌≡◌, ◌≤◌, refl, ◌∙◌, inl, inr, Bool, true, false, List, [], ◌∷◌, Result, ok, err, arith,
  length, Bool-cases, Option-cases,
}
use cron_mon.Base.Text.{Text}
use cron_mon.Time.{Time}
use cron_mon.Model.{Channel, Notification, AlertEvent}
use cron_mon.Cache.{get}
use cron_mon.Cache.Coherence.{CheckStore}
use cron_mon.World.{World}
use cron_mon.Alerts.{receive}
use cron_mon.Notify.Worker.{notification, dispatch, retry}
use cron_mon.Handler.Channel.{
  has_id, known_ids, go_on, detach_others, attach_all, attach_after, assign, assign_channels,
}
use cron_mon.Handler.Dashboard.Detail.{Page, querying, handle_check_detail, handle_channel_list}
use cron_mon.System.{Services, LeavesChecks, deliver}
use cron_mon.System.Invariant.{Inv, with_db-Inv}

module _ {Db : Type 0} (s : Services Db) (laws : CheckStore s.checks)
    (leaves : LeavesChecks s laws) where
  open s use {cron, checks, channels, ping_rows, trusted_proxy, notifications}

  -- The rows of the checks are the same.
  abbrev pub SameChecks : Db → Db → Type 0
  SameChecks db db' = (k : Text) → laws.rows db' k ≡ laws.rows db k

  go_on-SameChecks :
      (start : Db) (r : Result Unit × Db) (next : Db → Bool × Db)
      → SameChecks start r.1
      → ((db : Db) → SameChecks start db → SameChecks start (next db).1)
      → SameChecks start (go_on channels r next).1
  unfolding go_on
  go_on-SameChecks start (ok u, db) next h k = k db h
  go_on-SameChecks start (err e, db) next h k = h

  known_ids-SameChecks :
      (start : Db) (ids : List ℕ) (db : Db)
      → SameChecks start db
      → SameChecks start (known_ids channels ids db).1
  unfolding known_ids
  known_ids-SameChecks start [] db h = h
  known_ids-SameChecks start (id ∷ ids) db h =
      known_ids-SameChecks start ids _ (λ k. leaves.by_get_channel id db k ∙ h k)

  detach_others-SameChecks :
      (start : Db) (check : Text) (desired : List ℕ) (current : List Channel) (db : Db)
      → SameChecks start db
      → SameChecks start (detach_others channels check desired current db).1
  unfolding detach_others
  detach_others-SameChecks start check desired [] db h = h
  detach_others-SameChecks start check desired (ch ∷ current) db h =
      elim (Bool-cases (has_id ch.id desired)) [
        | inl e ↦ rw e (detach_others-SameChecks start check desired current db h)
        | inr e ↦ rw e (
            go_on-SameChecks start _ _ (λ k. leaves.by_detach check ch.id db k ∙ h k)
              (detach_others-SameChecks start check desired current))
      ]

  attach_all-SameChecks :
      (start : Db) (check : Text) (ids : List ℕ) (db : Db)
      → SameChecks start db
      → SameChecks start (attach_all channels check ids db).1
  unfolding attach_all
  attach_all-SameChecks start check [] db h = h
  attach_all-SameChecks start check (id ∷ ids) db h =
      go_on-SameChecks start _ _ (λ k. leaves.by_attach check id db k ∙ h k)
        (attach_all-SameChecks start check ids)

  attach_after-SameChecks :
      (start : Db) (check : Text) (desired : List ℕ) (r : Bool × Db)
      → SameChecks start r.1
      → SameChecks start (attach_after channels check desired r).1
  unfolding attach_after
  attach_after-SameChecks start check desired (false, db) h = h
  attach_after-SameChecks start check desired (true, db) h =
      attach_all-SameChecks start check desired db h

  assign-SameChecks :
      (start : Db) (check : Text) (desired : List ℕ) (r : Result (List Channel) × Db)
      → SameChecks start r.1
      → SameChecks start (assign channels check desired r).1
  unfolding assign
  assign-SameChecks start check desired (err e, db) h = h
  assign-SameChecks start check desired (ok current, db) h =
      attach_after-SameChecks start check desired _
        (detach_others-SameChecks start check desired current db h)

  pub assign_channels-SameChecks :
      (check : Text) (ids : List ℕ) (db : Db)
      → SameChecks db (assign_channels channels check ids db).1
  unfolding assign_channels
  assign_channels-SameChecks check ids db =
      let known = known_ids-SameChecks db ids db (λ k. refl) in
      let (desired, db') = known_ids channels ids db in
      assign-SameChecks db check desired (channels.list_by_check_id check db')
        (λ k. leaves.by_channels check _ k ∙ known k)

  retry-SameChecks :
      (start : Db) (now : Time) (n : Notification) (r : Result ℕ × Db)
      → SameChecks start r.1
      → SameChecks start (retry (s.notifiers now) s.no_notifier notifications n r)
  unfolding retry
  retry-SameChecks start now n (ok id, db) h = h
  retry-SameChecks start now n (err e, db) h = λ k. leaves.by_create_notification _ db k ∙ h k

  dispatch-SameChecks :
      (now : Time) (event : AlertEvent) (db : Db)
      → SameChecks db (dispatch (s.notifiers now) s.no_notifier notifications now event db)
  unfolding dispatch
  dispatch-SameChecks now event db =
      let n = notification (s.notifiers now) s.no_notifier now event in
      retry-SameChecks db now n (notifications.create n db)
        (λ k. leaves.by_create_notification n db k)

  received-Inv :
      (now : Time) (queue : List AlertEvent) (capacity : ℕ) (w : World Db)
      → length queue ≤ capacity
      → Inv s laws w
      → Inv s laws (deliver s now (receive (record { queue = queue; capacity = capacity })) w)
  unfolding deliver receive
  received-Inv now [] capacity w fits v = v
  received-Inv now (event ∷ queue) capacity w fits v =
      let after = with_db-Inv s laws w _ (dispatch-SameChecks now event w.cache.db) v in
      record {
        keyed = after.keyed;
        coherent = after.coherent;
        fits = omega arith;
        sound = after.sound;
      }

  pub deliver-Inv :
      (now : Time) (w : World Db) → Inv s laws w → Inv s laws (deliver s now (receive w.alerts) w)
  deliver-Inv now w v = received-Inv now w.alerts.queue w.alerts.capacity w v.fits v

  querying-SameChecks :
      {A Data : Type 0} (start : Db) (r : Result A × Db) (next : A → Db → Page Data × Db)
      → SameChecks start r.1
      → ((a : A) (db : Db) → SameChecks start db → SameChecks start (next a db).1)
      → SameChecks start (querying r next).1
  unfolding querying
  querying-SameChecks start (err e, db) next h k = h
  querying-SameChecks start (ok a, db) next h k = k a db h

  pub handle_channel_list-Inv :
      (w : World Db) → Inv s laws w → Inv s laws (handle_channel_list channels w).1
  unfolding handle_channel_list
  handle_channel_list-Inv w v =
      with_db-Inv s laws w _
        (querying-SameChecks w.cache.db (channels.list_all w.cache.db) _
          (λ k. leaves.by_list_channels w.cache.db k) (λ all db h. h))
        v

  pub handle_check_detail-Inv :
      (id : Text) (w : World Db)
      → Inv s laws w
      → Inv s laws
          (handle_check_detail s.rfc3339 ping_rows channels notifications s.base_url id w).1
  unfolding handle_check_detail
  handle_check_detail-Inv id w v = elim (Option-cases (get id w.cache)) [
    | inl e ↦ rw e v
    | inr (c, e) ↦ rw e (
        let start = w.cache.db in
        with_db-Inv s laws w _
          (querying-SameChecks start (ping_rows.list_by_check_id id 30 start) _
            (λ k. leaves.by_list_pings id 30 start k)
            (λ newest db1 h1.
              querying-SameChecks start (channels.list_all db1) _
                (λ k. leaves.by_list_channels db1 k ∙ h1 k)
                (λ all db2 h2.
                  querying-SameChecks start (channels.list_by_check_id id db2) _
                    (λ k. leaves.by_channels id db2 k ∙ h2 k)
                    (λ attached db3 h3.
                      querying-SameChecks start (notifications.list_by_check_id id 10 db3) _
                        (λ k. leaves.by_list_notifications id 10 db3 k ∙ h3 k)
                        (λ latest db4 h4. h4)))))
          v)
  ]
