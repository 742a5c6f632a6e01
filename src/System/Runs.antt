-- ===== src/System/Runs.antt =====
-- The events of System, and their sequences, under the invariant of the shared state.
use cron_mon.Base.{refl, List, [], ◌∷◌}
use cron_mon.Cache.Coherence.{CheckStore}
use cron_mon.World.{World}
use cron_mon.Handler.Ping.{record_ping}
use cron_mon.Handler.Ping.Cases.{handle_cases}
use cron_mon.Handler.Check.{new_check, edited, toggled, handle_delete}
use cron_mon.Handler.Check.Cases.{handle_create_cases, handle_update_cases, handle_pause_cases}
use cron_mon.Handler.Check.Forms.{toggled-pause_sound, id-toggled, created-toggled}
use cron_mon.System.{
  Event, Services, LeavesChecks, pings, evaluates, cleans, creates, updates, pauses, deletes, shows,
  lists_channels, creates_channel, deletes_channel, assigns, delivers, step, run,
}
use cron_mon.System.Invariant.{
  Inv, found-KeepsCreation, set-Inv, create-Inv, delete-Inv, with_db-Inv,
}
use cron_mon.Handler.Channel.Cases.{
  handle_create_cases as handle_create_channel_cases, handle_delete_cases,
  handle_attach_detach_cases,
}
use cron_mon.System.Queries.{
  assign_channels-SameChecks, deliver-Inv, handle_channel_list-Inv, handle_check_detail-Inv,
}
use cron_mon.System.Steps.{evaluate_all-Inv, cleanup-Inv, complete_or_start-Inv}

module _ {Db : Type 0} (s : Services Db) (laws : CheckStore s.checks)
    (leaves : LeavesChecks s laws) where
  open s use {cron, checks, channels, ping_rows, trusted_proxy}

  -- Every event, whether its database calls succeed or fail, keeps the cache keyed by ID and in
  -- agreement with the database, the alert channel within its capacity, and each cached check
  -- paused exactly if it has saved a status to restore, which is not "paused".
  pub step-Inv : (e : Event) (w : World Db) → Inv s laws w → Inv s laws (step s e w)
  unfolding step handle_delete record_ping
  step-Inv (pings uuid type now r) w v =
      handle_cases cron checks channels ping_rows trusted_proxy uuid type now r w (Inv s laws) v
        λ c found active.
          with_db-Inv s laws _ _ (λ k. leaves.by_create _ _ k)
            (complete_or_start-Inv s laws leaves type c now w
              (found-KeepsCreation s laws uuid c c w.cache v.keyed found refl refl) active
              (v.sound uuid c found) v)
  step-Inv (evaluates now) w v = evaluate_all-Inv s laws leaves now w v
  step-Inv cleans w v = cleanup-Inv s laws leaves w v
  step-Inv (creates id now r) w v =
      handle_create_cases cron checks (Inv s laws) id now w r v
        λ form next _ _. create-Inv s laws (new_check id form now next) w refl v
  step-Inv (updates id now r) w v =
      handle_update_cases cron checks (Inv s laws) id now w r v λ c form next found _ _.
        set-Inv s laws (edited form now next c) w
          (found-KeepsCreation s laws id c (edited form now next c) w.cache v.keyed found refl refl)
          (v.sound id c found) v
  step-Inv (pauses id now) w v = handle_pause_cases cron checks (Inv s laws) id now w v λ c found.
      set-Inv s laws (toggled now c) w
        (found-KeepsCreation s laws id c (toggled now c) w.cache v.keyed found (id-toggled now c)
          (created-toggled now c))
        (toggled-pause_sound now c (v.sound id c found)) v
  step-Inv (deletes id) w v = delete-Inv s laws id w v
  step-Inv (shows id) w v = handle_check_detail-Inv s laws leaves id w v
  step-Inv lists_channels w v = handle_channel_list-Inv s laws leaves w v
  step-Inv (creates_channel now r) w v =
      handle_create_channel_cases channels (Inv s laws) w v s.lib now r
        λ ch. with_db-Inv s laws w _ (λ k. leaves.by_create_channel ch w.cache.db k) v
  step-Inv (deletes_channel id) w v =
      handle_delete_cases channels (Inv s laws) w v id
        λ key. with_db-Inv s laws w _ (λ k. leaves.by_delete_channel key w.cache.db k) v
  step-Inv (assigns id r) w v =
      handle_attach_detach_cases channels (Inv s laws) w v id r
        λ ids. with_db-Inv s laws w _ (assign_channels-SameChecks s laws leaves id ids w.cache.db) v
  step-Inv (delivers now) w v = deliver-Inv s laws leaves now w v

  -- So does every sequence of events.
  pub run-Inv : (es : List Event) (w : World Db) → Inv s laws w → Inv s laws (run s es w)
  unfolding run
  run-Inv [] w v = v
  run-Inv (e ∷ es) w v = run-Inv es (step s e w) (step-Inv e w v)
