-- ===== src/System/Interleaved/Births.antt =====
-- The invariant of the shared state under interleaved requests: a check that a handler of
-- internal/handler has read before other goroutines ran may still be written back.
use cron_mon.Base.{◌≡◌, refl, sym, ap, ◌∙◌, inl, inr, true, false, Option, none, some}
use cron_mon.Base.Text.{Text}
use cron_mon.Time.{Time}
use cron_mon.Model.{Check, PingType, AlertEvent, is_paused}
use cron_mon.Model.Pausing.{pause_sound}
use cron_mon.Alerts.{AlertChannel, receive}
use cron_mon.Cache.{get, set, create, delete, with_write_lock}
use cron_mon.Cache.Keys.{lookup-id}
use cron_mon.Cache.Lookup.{set-Wrote, create-Wrote, delete-removes}
use cron_mon.Cache.Coherence.{CheckStore, KeepsCreation}
use cron_mon.World.{World}
use cron_mon.Scheduler.{mark_down, evaluate_all, cleanup_old_pings}
use cron_mon.Scheduler.Alerting.{checks-alert_down}
use cron_mon.Scheduler.Pass.{Settles, kept, marked, evaluate-Settles}
use cron_mon.Handler.Ping.{started, completed, record_ping, complete_or_start, handle}
use cron_mon.Handler.Ping.Cases.{handle_known_cases}
use cron_mon.Handler.Ping.Effects.{pinged, get-complete_or_start}
use cron_mon.Handler.Check.{new_check, edited, toggled, handle_update, handle_pause, handle_delete}
use cron_mon.Handler.Check.Cases.{update_known_cases, pause_known_cases, handle_create_cases}
use cron_mon.Handler.Check.Forms.{toggled-pause_sound, id-toggled, created-toggled}
use cron_mon.Handler.Channel.Cases.{
  handle_create_cases as handle_create_channel_cases, handle_delete_cases,
  handle_attach_detach_cases,
}
use cron_mon.Handler.Dashboard.Detail.{show_detail, handle_check_detail, handle_channel_list}
use cron_mon.System.{
  Services, LeavesChecks, Event, pings, evaluates, cleans, creates, updates, pauses, deletes, shows,
  lists_channels, creates_channel, deletes_channel, assigns, delivers, step, deliver,
}
use cron_mon.System.Invariant.{Every, Every-Wrote, Inv, set-Inv, with_db-Inv}
use cron_mon.System.Steps.{complete_or_start-Inv}
use cron_mon.System.Runs.{step-Inv}
use cron_mon.System.Interleaved.{Access, ping, update, pause, finish}

module _ {Db : Type 0} (s : Services Db) (laws : CheckStore s.checks) (leaves : LeavesChecks s laws)
    (born : Text → Time) where
  open s use {cron, checks, channels, ping_rows, trusted_proxy, notifications}

  -- `born` tells when the check of an ID was created: a new UUID is given to one check only.
  abbrev pub IsBorn : Check → Type 0
  IsBorn c = c.created_at ≡ born c.id

  pub record Good (w : World Db) : Type 0 where
    pub inv : Inv s laws w
    pub births : Every IsBorn w.cache

  -- What a handler may have read.
  abbrev pub IsReadable : Option Check → Type 0
  IsReadable read = (c : Check) → read ≡ some c → IsBorn c × (pause_sound c ≡ true)

  abbrev pub IsFresh : Event → Type 0
  IsFresh (creates id now r) = now ≡ born id
  IsFresh _ = Unit {0}

  born-keeps : (c : Check) (w : World Db) → IsBorn c → Good w → KeepsCreation laws c w.cache
  unfolding get
  born-keeps c w b g d found =
      let same : d.id ≡ c.id = lookup-id c.id w.cache.checks g.inv.keyed.keyed d found in
      b ∙ ap born (sym same) ∙ sym (g.births c.id d found)

  set-Good :
      (c : Check) (w : World Db)
      → IsBorn c
      → pause_sound c ≡ true
      → Good w
      → Good (record w { cache = (set checks c w.cache).1 })
  set-Good c w b sound g = record {
    inv = set-Inv s laws c w (born-keeps c w b g) sound g.inv;
    births = Every-Wrote _ w.cache _ c b (λ k. set-Wrote checks w.cache k c) g.births;
  }

  unchanged-Good :
      (w w' : World Db) → Inv s laws w' → w'.cache.checks ≡ w.cache.checks → Good w → Good w'
  unfolding get
  unchanged-Good w w' v same g = record { inv = v; births = λ k c e. g.births k c (rw same at e) }

  pinged-IsBorn :
      (type : PingType) (now : Time) (c : Check) → IsBorn c → IsBorn (pinged cron type now c)
  unfolding started completed
  pinged-IsBorn PingType.start now c b = b
  pinged-IsBorn PingType.success now c b = b
  pinged-IsBorn PingType.fail now c b = b

  complete_or_start-Good :
      (type : PingType) (c : Check) (now : Time) (w : World Db)
      → IsBorn c
      → is_paused c.status ≡ false
      → pause_sound c ≡ true
      → Good w
      → Good (complete_or_start cron checks channels type c now w)
  complete_or_start-Good type c now w b active sound g = record {
    inv = complete_or_start-Inv s laws leaves type c now w (born-keeps c w b g) active sound g.inv;
    births = λ k d e.
        Every-Wrote _ w.cache (set checks (pinged cron type now c) w.cache).1
          (pinged cron type now c) (pinged-IsBorn type now c b)
          (λ k. set-Wrote checks w.cache k (pinged cron type now c)) g.births k d
          (sym (get-complete_or_start cron checks channels type c now w k) ∙ e);
  }

  -- What a handler does after its read.
  pub finish-Good :
      (a : Access) (read : Option Check) (w : World Db)
      → IsReadable read
      → Good w
      → Good (finish s a read w)
  unfolding finish record_ping
  finish-Good (ping uuid type now r) read w ready g =
      handle_known_cases cron checks channels ping_rows trusted_proxy uuid type now r w Good read g
        λ c e active.
          let after = complete_or_start-Good type c now w (ready c e).0 active (ready c e).1 g in
          unchanged-Good _ _ (with_db-Inv s laws _ _ (λ k. leaves.by_create _ _ k) after.inv) refl
            after
  finish-Good (update id now r) read w ready g =
      update_known_cases cron checks Good id now w read r g
        λ c form next e _ _. set-Good (edited form now next c) w (ready c e).0 (ready c e).1 g
  finish-Good (pause id now) read w ready g =
      pause_known_cases cron checks Good id now w read g λ c e.
        set-Good (toggled now c) w
          (created-toggled now c ∙ (ready c e).0 ∙ ap born (sym (id-toggled now c)))
          (toggled-pause_sound now c (ready c e).1) g

  pub get-IsReadable : (k : Text) (w : World Db) → Good w → IsReadable (get k w.cache)
  get-IsReadable k w g c e = (g.births k c e, g.inv.sound k c e)

  settled-IsBorn :
      (now : Time) (k : Text) (c : Check) (w : World Db) {after : Option Check}
      → Good w
      → Settles now (get k w.cache) after
      → after ≡ some c
      → IsBorn c
  unfolding mark_down
  settled-IsBorn now k c w g (kept q) e = g.births k c (sym q ∙ e)
  settled-IsBorn now k c w g (marked d found late q) e =
      let same : mark_down now d ≡ c = cc in rw (← same) (g.births k d found)

  evaluate_all-births :
      (now : Time) (w : World Db) → Good w → Every IsBorn (evaluate_all checks channels now w).cache
  unfolding evaluate_all with_write_lock get
  evaluate_all-births now w g k c =
      rw (checks-alert_down channels _ _)
        (λ e. settled-IsBorn now k c w g (evaluate-Settles checks now w.cache g.inv.keyed k) e)

  delete-births : (id : Text) (w : World Db) → Good w → Every IsBorn (delete checks id w.cache).1
  delete-births id w g k c e = elim (delete-removes checks w.cache k id g.inv.keyed) [
    | inl same ↦ g.births k c (sym same ∙ e)
    | inr gone ↦ cc (gone, e)
  ]

  show_detail-births :
      (id : Text) (found : Option Check) (w : World Db)
      → Good w
      → Every IsBorn
          (show_detail s.rfc3339 ping_rows channels notifications s.base_url id found w).1.cache
  unfolding show_detail get
  show_detail-births id none w g = g.births
  show_detail-births id (some c) w g = g.births

  deliver-births :
      (now : Time) (received : Option (AlertEvent × AlertChannel)) (w : World Db)
      → Good w
      → Every IsBorn (deliver s now received w).cache
  unfolding deliver get
  deliver-births now none w g = g.births
  deliver-births now (some (event, ch)) w g = g.births

  step-births : (e : Event) (w : World Db) → IsFresh e → Good w → Every IsBorn (step s e w).cache
  unfolding step handle handle_update handle_pause handle_delete finish get cleanup_old_pings
      handle_check_detail handle_channel_list
  step-births (pings uuid type now r) w fresh g =
      (finish-Good (ping uuid type now r) _ w (get-IsReadable uuid w g) g).births
  step-births (evaluates now) w fresh g = evaluate_all-births now w g
  step-births cleans w fresh g = g.births
  step-births (creates id now r) w fresh g =
      handle_create_cases cron checks (λ w'. Every IsBorn w'.cache) id now w r g.births
        λ form next _ _.
          Every-Wrote _ w.cache (create checks (new_check id form now next) w.cache).1
            (new_check id form now next) fresh
            (λ k. create-Wrote checks w.cache k (new_check id form now next)) g.births
  step-births (updates id now r) w fresh g =
      (finish-Good (update id now r) _ w (get-IsReadable id w g) g).births
  step-births (pauses id now) w fresh g =
      (finish-Good (pause id now) _ w (get-IsReadable id w g) g).births
  step-births (deletes id) w fresh g = delete-births id w g
  step-births (shows id) w fresh g = show_detail-births id (get id w.cache) w g
  step-births lists_channels w fresh g = g.births
  step-births (creates_channel now r) w fresh g =
      handle_create_channel_cases channels (λ w'. Every IsBorn w'.cache) w g.births s.lib now r
        λ ch. g.births
  step-births (deletes_channel id) w fresh g =
      handle_delete_cases channels (λ w'. Every IsBorn w'.cache) w g.births id λ key. g.births
  step-births (assigns id r) w fresh g =
      handle_attach_detach_cases channels (λ w'. Every IsBorn w'.cache) w g.births id r
        λ ids. g.births
  step-births (delivers now) w fresh g = deliver-births now (receive w.alerts) w g

  pub step-Good : (e : Event) (w : World Db) → IsFresh e → Good w → Good (step s e w)
  step-Good e w fresh g = record {
    inv = step-Inv s laws leaves e w g.inv;
    births = step-births e w fresh g;
  }
