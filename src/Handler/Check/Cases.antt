-- ===== src/Handler/Check/Cases.antt =====
-- The branches of the handlers in internal/handler/check.go.
use cron_mon.Base.{◌≡◌, refl, Option, none, some, inl, inr, Option-cases, ◌⊎◌}
use cron_mon.Base.Text.{Text}
use cron_mon.Time.{Time}
use cron_mon.Model.{Check}
use cron_mon.Schedule.{Cron, next_expected_at}
use cron_mon.Repository.{CheckRepository}
use cron_mon.Cache.{get, set, create}
use cron_mon.World.{World}
use cron_mon.Http.{Request, Response}
use cron_mon.Handler.Check.{
  Parsed, CheckForm, accepted, refused, parse_check_form, new_check, edited, reference, toggled,
  create_accepted, update_accepted, update_known, pause_known, handle_create, handle_update,
  handle_pause,
}

Parsed-cases :
    (p : Parsed CheckForm)
    → ((a : Response) × (p ≡ refused a)) ⊎ ((form : CheckForm) × (p ≡ accepted form))
Parsed-cases (refused a) = inl (a, refl)
Parsed-cases (accepted form) = inr (form, refl)

module _ {ℓ} (cron : Cron) {Db : Type 0} (checks : CheckRepository Db) (P : World Db → Type ℓ)
    (id : Text) (now : Time) (w : World Db) where
  pub handle_create_cases :
      (r : Request)
      → P w
      → ((form : CheckForm) (next : Time)
          → parse_check_form cron r ≡ accepted form
          → next_expected_at cron form.schedule form.grace now ≡ some next
          → P (record w { cache = (create checks (new_check id form now next) w.cache).1 }))
      → P (handle_create checks cron id now r w).1
  unfolding handle_create
  handle_create_cases r same stored = elim (Parsed-cases (parse_check_form cron r)) [
    | inl (a, e) ↦ rw e same
    | inr (form, e) ↦
        rw e (elim (Option-cases (next_expected_at cron form.schedule form.grace now)) [
          | inl n ↦ rw (n, create_accepted) same
          | inr (next, n) ↦ rw (n, create_accepted) (stored form next e n)
        ])
  ]

  -- The same for a check that was read before the state `w`.
  pub update_known_cases :
      (read : Option Check) (r : Request)
      → P w
      → ((c : Check) (form : CheckForm) (next : Time)
          → read ≡ some c
          → parse_check_form cron r ≡ accepted form
          → next_expected_at cron form.schedule form.grace (reference c now) ≡ some next
          → P (record w { cache = (set checks (edited form now next c) w.cache).1 }))
      → P (update_known checks cron id now r read w).1
  unfolding update_known
  update_known_cases none r same stored = same
  update_known_cases (some c) r same stored = elim (Parsed-cases (parse_check_form cron r)) [
    | inl (a, p) ↦ rw p same
    | inr (form, p) ↦
        rw p
          (elim (Option-cases (next_expected_at cron form.schedule form.grace (reference c now))) [
            | inl n ↦ rw (n, update_accepted) same
            | inr (next, n) ↦ rw (n, update_accepted) (stored c form next refl p n)
          ])
  ]

  pub handle_update_cases :
      (r : Request)
      → P w
      → ((c : Check) (form : CheckForm) (next : Time)
          → get id w.cache ≡ some c
          → parse_check_form cron r ≡ accepted form
          → next_expected_at cron form.schedule form.grace (reference c now) ≡ some next
          → P (record w { cache = (set checks (edited form now next c) w.cache).1 }))
      → P (handle_update checks cron id now r w).1
  unfolding handle_update
  handle_update_cases r = update_known_cases (get id w.cache) r

  pub pause_known_cases :
      (read : Option Check)
      → P w
      → ((c : Check)
          → read ≡ some c
          → P (record w { cache = (set checks (toggled now c) w.cache).1 }))
      → P (pause_known checks id now read w).1
  unfolding pause_known
  pause_known_cases none same stored = same
  pause_known_cases (some c) same stored = stored c refl

  pub handle_pause_cases :
      P w
      → ((c : Check)
          → get id w.cache ≡ some c
          → P (record w { cache = (set checks (toggled now c) w.cache).1 }))
      → P (handle_pause checks id now w).1
  unfolding handle_pause
  handle_pause_cases = pause_known_cases (get id w.cache)
