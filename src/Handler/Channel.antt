-- ===== src/Handler/Channel.antt =====
-- internal/handler/channel.go: create and delete a channel, and choose the channels of a check.
pub mod Validation
pub mod Assignment
pub mod Selection
pub mod Cases
use cron_mon.Base.{
  ℕ, String, Bool, true, false, not, ◌&&◌, ◌||◌, Option, none, some, is_some, List, [], ◌∷◌, Result,
  ok, err, Error, ◌==◌, if◌then◌else◌,
}
use cron_mon.Base.Int.{ℤ, pos, negsuc}
use cron_mon.Base.Text.{Text, is_empty, text_eq, quoted, trim_space, has_prefix}
use cron_mon.Time.{Time}
use cron_mon.Model.{Channel}
use cron_mon.Repository.{ChannelRepository}
use cron_mon.Cache.{get}
use cron_mon.World.{World, with_db}
use cron_mon.Strconv.{atoi, parse_uint16}
use cron_mon.Http.{
  Request, Response, redirect, bad_request, not_found, internal_error, name_required,
  unreadable_form, invalid_channel_id, invalid_config, parse_form, form_value, form_values,
}
use cron_mon.Notify.Ip.{Ip, is_private_ip}
use cron_mon.Handler.Check.{max_form_bytes, check_path}
use cron_mon.Handler.Channel.Validation.{
  Library, type_of, build_config_from_fields, validate_channel_config,
}

-- The number of a row. A negative number names no row, as 0 does: keys start at 1.
abbrev pub row_key : ℤ → ℕ
row_key (pos n) = n
row_key (negsuc n) = 0

-- The distinct numbers among the texts, the keys of the map `desired`, in one of the orders in
-- which Go may range over it.
unfoldable pub has_id : ℕ → List ℕ → Bool
has_id n [] = false
has_id n (m ∷ ms) = m == n || has_id n ms

add_id : Option ℤ → List ℕ → List ℕ
add_id none ids = ids
add_id (some z) ids = if has_id (row_key z) ids then ids else row_key z ∷ ids

unfoldable pub desired_ids : List Text → List ℕ
unfolding atoi add_id has_id
desired_ids [] = []
desired_ids (s ∷ ss) = add_id (atoi s) (desired_ids ss)

module _ {Db : Type 0} (channel_repo : ChannelRepository Db) where
  created_answer : Result ℕ → Response
  created_answer (ok id) = redirect (quoted "/channels")
  created_answer (err e) = internal_error

  store_channel : Channel → World Db → Response × World Db
  store_channel ch w =
      let (result, db) = channel_repo.create ch w.cache.db in (created_answer result, with_db w db)

  module _ (lib : Library) where
    create_channel : Time → Text → Text → Text → World Db → Response × World Db
    create_channel now type name config w =
        if is_empty name
        then (bad_request name_required, w)
        else if not (validate_channel_config lib (type_of type) config)
        then (bad_request invalid_config, w)
        else store_channel
            (record { id = 0; type = type; name = name; config = config; created_at = now }) w

    -- The config field, or what the other fields make of it.
    config_of : Text → Request → Text
    config_of type r =
        let config = form_value "config" r in
        if is_empty config then build_config_from_fields lib (type_of type) r else config

    create_parsed : Time → Bool × Request → World Db → Response × World Db
    create_parsed now (false, r) w = (bad_request unreadable_form, w)
    create_parsed now (true, r) w =
        let type = form_value "type" r in
        create_channel now type (form_value "name" r) (config_of type r) w

    -- HandleCreate
    unfoldable pub handle_create : Time → Request → World Db → Response × World Db
    unfolding create_parsed create_channel store_channel created_answer config_of
        validate_channel_config type_of
    handle_create now r w = create_parsed now (parse_form max_form_bytes r) w

  deleted_answer : Result (Unit {0}) → Response
  deleted_answer (ok _) = redirect (quoted "/channels")
  deleted_answer (err Error.not_found) = redirect (quoted "/channels")
  deleted_answer (err Error.failed) = internal_error

  delete_parsed : Option ℤ → World Db → Response × World Db
  delete_parsed none w = (bad_request invalid_channel_id, w)
  delete_parsed (some id) w =
      let (result, db) = channel_repo.delete (row_key id) w.cache.db in
      (deleted_answer result, with_db w db)

  -- HandleDelete, with the path's {id}.
  unfoldable pub handle_delete : Text → World Db → Response × World Db
  unfolding delete_parsed deleted_answer atoi
  handle_delete id w = delete_parsed (atoi id) w

  -- The desired channels that exist.
  unfoldable pub keep_if : Result Channel → ℕ → List ℕ → List ℕ
  keep_if (ok ch) id ids = id ∷ ids
  keep_if (err e) id ids = ids

  unfoldable pub known_ids : List ℕ → Db → List ℕ × Db
  unfolding keep_if
  known_ids [] db = ([], db)
  known_ids (id ∷ ids) db =
      let (found, db') = channel_repo.get_by_id id db in
      let (rest, db'') = known_ids ids db' in (keep_if found id rest, db'')

  -- The loop that detaches; false if it stopped at an error.
  unfoldable pub go_on : Result (Unit {0}) × Db → (Db → Bool × Db) → Bool × Db
  go_on (ok _, db) rest = rest db
  go_on (err e, db) rest = (false, db)

  unfoldable pub detach_others : Text → List ℕ → List Channel → Db → Bool × Db
  unfolding go_on has_id
  detach_others check desired [] db = (true, db)
  detach_others check desired (ch ∷ current) db =
      let rest = detach_others check desired current in
      if has_id ch.id desired
      then rest db
      else go_on (channel_repo.detach_from_check check ch.id db) rest

  unfoldable pub attach_all : Text → List ℕ → Db → Bool × Db
  unfolding go_on
  attach_all check [] db = (true, db)
  attach_all check (id ∷ ids) db =
      go_on (channel_repo.attach_to_check check id db) (attach_all check ids)

  unfoldable pub attach_after : Text → List ℕ → Bool × Db → Bool × Db
  attach_after check desired (false, db) = (false, db)
  attach_after check desired (true, db) = attach_all check desired db

  unfoldable pub assign : Text → List ℕ → Result (List Channel) × Db → Bool × Db
  assign check desired (err e, db) = (false, db)
  assign check desired (ok current, db) =
      attach_after check desired (detach_others check desired current db)

  -- From the desired channels to whether all queries succeeded.
  unfoldable pub assign_channels : Text → List ℕ → Db → Bool × Db
  unfolding assign attach_after detach_others attach_all known_ids
  assign_channels check ids db =
      let (desired, db') = known_ids ids db in
      assign check desired (channel_repo.list_by_check_id check db')

  assigned : Text → World Db → Bool × Db → Response × World Db
  assigned check w (true, db) = (redirect (check_path check), with_db w db)
  assigned check w (false, db) = (internal_error, with_db w db)

  assign_parsed : Text → Bool × Request → World Db → Response × World Db
  assign_parsed check (false, r) w = (bad_request unreadable_form, w)
  assign_parsed check (true, r) w =
      assigned check w
        (assign_channels check (desired_ids (form_values "channel_ids" r)) w.cache.db)

  -- HandleAttachDetach, with the path's {id}.
  unfoldable pub handle_attach_detach : Text → Request → World Db → Response × World Db
  unfolding assign_parsed assigned assign_channels
  handle_attach_detach check r w =
      if is_some (get check w.cache)
      then assign_parsed check (parse_form max_form_bytes r) w
      else (not_found, w)
