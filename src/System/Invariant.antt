-- ===== src/System/Invariant.antt =====
-- The invariant of the program's shared state, and the actions that all events are made of.
use mathlib.Core.Path.{subst}
use cron_mon.Base.{◌≡◌, sym, ◌∙◌, inl, inr, true, some, List, [], ◌∷◌}
use cron_mon.Base.Text.{Text}
use cron_mon.Model.{Check, AlertType}
use cron_mon.Model.Pausing.{pause_sound}
use cron_mon.Cache.{StateCache, get, set, create, delete}
use cron_mon.Cache.Keys.{IsKeyed, lookup-id, create-IsKeyed, set-IsKeyed, delete-IsKeyed}
use cron_mon.Cache.Lookup.{Wrote, untouched, replaced, set-Wrote, create-Wrote, delete-removes}
use cron_mon.Cache.Coherence.{
  CheckStore, Coherent, KeepsCreation, create-Coherent, set-Coherent, delete-Coherent,
}
use cron_mon.Alerts.Capacity.{Fits}
use cron_mon.World.{World, with_db}
use cron_mon.Scheduler.{enqueue_alerts, alert_down}
use cron_mon.Scheduler.Alerting.{enqueue_alerts-Fits}
use cron_mon.System.{Services, LeavesChecks}

-- Every cached check satisfies `P`.
abbrev pub Every {ℓ} : {Db : Type 0} → (Check → Type ℓ) → StateCache Db → Type ℓ
Every P sc = (k : Text) (c : Check) → get k sc ≡ some c → P c

pub Every-Wrote {ℓ} :
    {Db : Type 0} (P : Check → Type ℓ) (sc sc' : StateCache Db) (c : Check)
    → P c
    → ((k : Text) → Wrote k c (get k sc) (get k sc'))
    → Every P sc
    → Every P sc'
Every-Wrote P sc sc' c p w h k d e = found (w k)
  where
    found : Wrote k c (get k sc) (get k sc') → P d
    found (untouched q) = h k d (sym q ∙ e)
    found (replaced _ q) = let eq : c ≡ d = cc in subst P eq p

module _ {Db : Type 0} (s : Services Db) (laws : CheckStore s.checks) where
  open s use {cron, checks, channels, ping_rows, trusted_proxy}

  pub record Inv (w : World Db) : Type 0 where
    pub keyed : IsKeyed w.cache.checks
    pub coherent : Coherent laws w.cache
    pub fits : Fits w.alerts
    pub sound : Every (λ c. pause_sound c ≡ true) w.cache

  -- A check that was looked up may be written back under its ID and its creation time.
  pub found-KeepsCreation :
      (id : Text) (c c' : Check) (sc : StateCache Db)
      → IsKeyed sc.checks
      → get id sc ≡ some c
      → c'.id ≡ c.id
      → c'.created_at ≡ c.created_at
      → KeepsCreation laws c' sc
  unfolding get
  found-KeepsCreation id c c' sc v found same_id same d e =
      let key : c'.id ≡ id = same_id ∙ lookup-id id sc.checks v.keyed c found in
      let eq : get id sc ≡ some d = rw key at e in cc

  pub set-Inv :
      (c : Check) (w : World Db)
      → KeepsCreation laws c w.cache
      → pause_sound c ≡ true
      → Inv w
      → Inv (record w { cache = (set checks c w.cache).1 })
  set-Inv c w same p v = record {
    keyed = set-IsKeyed checks w.cache c v.keyed;
    coherent = set-Coherent laws c w.cache same v.coherent;
    fits = v.fits;
    sound = Every-Wrote _ w.cache _ c p (λ k. set-Wrote checks w.cache k c) v.sound;
  }

  pub create-Inv :
      (c : Check) (w : World Db)
      → pause_sound c ≡ true
      → Inv w
      → Inv (record w { cache = (create checks c w.cache).1 })
  create-Inv c w p v = record {
    keyed = create-IsKeyed checks w.cache c v.keyed;
    coherent = create-Coherent laws c w.cache v.coherent;
    fits = v.fits;
    sound = Every-Wrote _ w.cache _ c p (λ k. create-Wrote checks w.cache k c) v.sound;
  }

  pub delete-Inv :
      (id : Text) (w : World Db) → Inv w → Inv (record w { cache = (delete checks id w.cache).1 })
  delete-Inv id w v = record {
    keyed = delete-IsKeyed checks w.cache id v.keyed;
    coherent = delete-Coherent laws id w.cache v.keyed v.coherent;
    fits = v.fits;
    sound = λ k c e. elim (delete-removes checks w.cache k id v.keyed) [
      | inl same ↦ v.sound k c (sym same ∙ e)
      | inr gone ↦ cc (gone, e)
    ];
  }

  -- A query that leaves the rows of the checks alone.
  pub with_db-Inv :
      (w : World Db) (db : Db)
      → ((k : Text) → laws.rows db k ≡ laws.rows w.cache.db k)
      → Inv w
      → Inv (with_db w db)
  unfolding get
  with_db-Inv w db same v = record {
    keyed = v.keyed;
    coherent = λ k. v.coherent k ∙ sym (same k);
    fits = v.fits;
    sound = v.sound;
  }

  module _ (leaves : LeavesChecks s laws) where
    pub enqueue_alerts-Inv :
        (c : Check) (type : AlertType) (w : World Db)
        → Inv w
        → Inv (enqueue_alerts channels c type w)
    unfolding enqueue_alerts get
    enqueue_alerts-Inv c type w v = record {
      keyed = v.keyed;
      coherent = λ k. v.coherent k ∙ sym (leaves.by_channels c.id w.cache.db k);
      fits = enqueue_alerts-Fits channels c type w v.fits;
      sound = v.sound;
    }

    pub alert_down-Inv : (cs : List Check) (w : World Db) → Inv w → Inv (alert_down channels cs w)
    unfolding alert_down
    alert_down-Inv [] w v = v
    alert_down-Inv (c ∷ cs) w v =
        alert_down-Inv cs (enqueue_alerts channels c AlertType.down w)
          (enqueue_alerts-Inv c AlertType.down w v)
