-- ===== src/Handler/Check.antt =====
-- internal/handler/check.go: create, update, delete and pause. Log output is left out.
pub mod Forms
pub mod Cases
use cron_mon.Base.{
  ℕ, ◌*◌, Bool, true, false, not, ◌&&◌, ◌||◌, Option, none, some, List, [], ◌∷◌, ◌++◌, Result, ok,
  err, Error, if◌then◌else◌,
}
use cron_mon.Base.Int.{ℤ, pos, ltb_ℤ}
use cron_mon.Base.Text.{Text, is_empty, text_eq, quoted}
use cron_mon.Time.{Time}
use cron_mon.Model.{Check, Status, is_paused}
use cron_mon.Schedule.{Cron, validate, next_expected_at}
use cron_mon.Repository.{CheckRepository}
use cron_mon.Cache.{StateCache, create, set, delete, get}
use cron_mon.World.{World}
use cron_mon.Strconv.{atoi}
use cron_mon.Http.{
  Request, Response, redirect, bad_request, not_found, internal_error, name_required,
  invalid_schedule, invalid_grace, parse_form, form_value,
}

-- 32 KiB.
abbrev pub max_form_bytes : ℕ
max_form_bytes = 32 * 1024

pub record CheckForm : Type 0 where
  pub name : Text
  pub schedule : Text
  pub grace : ℤ
  pub tags : Text
  pub notify_on_fail : Bool

-- The fields that a handler may use, or the answer that has been written.
pub data Parsed (A : Type 0) : Type 0 where
  accepted : A → Parsed A
  refused : Response → Parsed A

-- A grace that parses and is at least 1.
grace_of : Text → Option ℤ
grace_of s = elim (atoi s) [ none ↦ none | some g ↦ if ltb_ℤ g (pos 1) then none else some g ]

unfoldable pub parse_check_form : Cron → Request → Parsed CheckForm
unfolding grace_of
parse_check_form cron request =
    let r = (parse_form max_form_bytes request).1 in
    let name = form_value "name" r in
    let schedule = form_value "schedule" r in
    if is_empty name
    then refused (bad_request name_required)
    else if not (validate cron schedule)
    then refused (bad_request invalid_schedule)
    else elim (grace_of (form_value "grace" r)) [
      | none ↦ refused (bad_request invalid_grace)
      | some grace ↦ accepted (record {
        name = name;
        schedule = schedule;
        grace = grace;
        tags = form_value "tags" r;
        notify_on_fail = text_eq (form_value "notify_on_fail" r) (quoted "on");
      })
    ]

-- The answer after a write: a redirect, or 500.
abbrev pub answer : Result (Unit {0}) → Text → Response
answer (ok _) target = redirect target
answer (err e) target = internal_error

abbrev pub check_path : Text → Text
check_path id = quoted "/checks/" ++ id

-- The check that HandleCreate stores.
abbrev pub new_check : Text → CheckForm → Time → Time → Check
new_check id form now next = record {
  id = id;
  name = form.name;
  slug = none;
  schedule = form.schedule;
  grace = form.grace;
  status = Status.new;
  pre_pause_status = none;
  last_ping_at = none;
  next_expected_at = some next;
  created_at = now;
  updated_at = now;
  tags = form.tags;
  notify_on_fail = form.notify_on_fail;
}

-- The check that HandleUpdate stores.
abbrev pub edited : CheckForm → Time → Time → Check → Check
edited form now next c = record c {
  name = form.name;
  schedule = form.schedule;
  grace = form.grace;
  tags = form.tags;
  notify_on_fail = form.notify_on_fail;
  next_expected_at = some next;
  updated_at = now;
}

-- The last ping, or now if there was none.
unfoldable pub reference : Check → Time → Time
reference c now = elim c.last_ping_at [ none ↦ now | some t ↦ t ]

-- HandlePause: saves the status and pauses, or restores it, "new" if none was saved.
unfoldable pub toggled : Time → Check → Check
toggled now c =
    if is_paused c.status
    then record c {
      status = elim c.pre_pause_status [ none ↦ Status.new | some s ↦ s ];
      pre_pause_status = none;
      updated_at = now;
    }
    else record c { status = Status.paused; pre_pause_status = some c.status; updated_at = now }

module _ {Db : Type 0} (checks : CheckRepository Db) where
  -- cache.Set, and the answer.
  save : Text → Check → World Db → Response × World Db
  save target c w = let (r, sc) = set checks c w.cache in (answer r target, record w { cache = sc })

  insert_check : Check → World Db → Response × World Db
  insert_check c w =
      let (r, sc) = create checks c w.cache in (answer r (check_path c.id), record w { cache = sc })

  unfoldable pub pause_known : Text → Time → Option Check → World Db → Response × World Db
  unfolding save
  pause_known id now none w = (not_found, w)
  pause_known id now (some c) w = save (check_path id) (toggled now c) w

  unfoldable pub handle_pause : Text → Time → World Db → Response × World Db
  unfolding pause_known
  handle_pause id now w = pause_known id now (get id w.cache) w

  delete_answer : Result (Unit {0}) → Response
  delete_answer (ok _) = redirect (quoted "/checks")
  delete_answer (err Error.not_found) = redirect (quoted "/checks")
  delete_answer (err Error.failed) = internal_error

  unfoldable pub handle_delete : Text → World Db → Response × World Db
  unfolding delete_answer
  handle_delete id w =
      let (r, sc) = delete checks id w.cache in (delete_answer r, record w { cache = sc })

  module _ (cron : Cron) where
    create_accepted : Text → Time → Parsed CheckForm → World Db → Response × World Db
    unfolding insert_check
    create_accepted id now (refused answered) w = (answered, w)
    create_accepted id now (accepted form) w =
        elim (next_expected_at cron form.schedule form.grace now) [
          | none ↦ (internal_error, w)
          | some next ↦ insert_check (new_check id form now next) w
        ]

    -- `id` is the fresh uuid.New().
    unfoldable pub handle_create : Text → Time → Request → World Db → Response × World Db
    unfolding create_accepted
    handle_create id now request w = create_accepted id now (parse_check_form cron request) w

    update_accepted : Text → Time → Check → Parsed CheckForm → World Db → Response × World Db
    unfolding save
    update_accepted id now c (refused answered) w = (answered, w)
    update_accepted id now c (accepted form) w =
        elim (next_expected_at cron form.schedule form.grace (reference c now)) [
          | none ↦ (internal_error, w)
          | some next ↦ save (check_path id) (edited form now next c) w
        ]

    unfoldable pub update_known :
        Text → Time → Request → Option Check → World Db → Response × World Db
    unfolding update_accepted
    update_known id now request none w = (not_found, w)
    update_known id now request (some c) w =
        update_accepted id now c (parse_check_form cron request) w

    unfoldable pub handle_update : Text → Time → Request → World Db → Response × World Db
    unfolding update_known
    handle_update id now request w = update_known id now request (get id w.cache) w
