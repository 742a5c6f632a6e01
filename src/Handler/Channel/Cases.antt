-- ===== src/Handler/Channel/Cases.antt =====
-- The branches of the handlers in internal/handler/channel.go.
use cron_mon.Base.{ℕ, inl, inr, Bool, true, false, Option, none, some, is_some, List, Bool-cases}
use cron_mon.Base.Int.{ℤ}
use cron_mon.Base.Text.{Text, is_empty}
use cron_mon.Time.{Time}
use cron_mon.Model.{Channel}
use cron_mon.Repository.{ChannelRepository}
use cron_mon.Cache.{get}
use cron_mon.World.{World, with_db}
use cron_mon.Strconv.{atoi}
use cron_mon.Http.{Request}
use cron_mon.Handler.Channel.Validation.{Library, type_of, validate_channel_config}
use cron_mon.Handler.Channel.{
  row_key, store_channel, create_channel, create_parsed, handle_create, delete_parsed,
  handle_delete, assign_channels, assigned, assign_parsed, handle_attach_detach,
}

module _ {ℓ} {Db : Type 0} (channels : ChannelRepository Db) (P : World Db → Type ℓ) (w : World Db)
    (same : P w) where
  create_channel_cases :
      (lib : Library) (now : Time) (type name config : Text)
      → ((ch : Channel) → P (with_db w (channels.create ch w.cache.db).1))
      → P (create_channel channels lib now type name config w).1
  unfolding create_channel store_channel
  create_channel_cases lib now type name config stored = elim (Bool-cases (is_empty name)) [
    | inl e ↦ rw e same
    | inr e ↦ elim (Bool-cases (validate_channel_config lib (type_of type) config)) [
      | inr f ↦ rw (e, f) same
      | inl f ↦ rw (e, f) (stored _)
    ]
  ]

  create_parsed_cases :
      (lib : Library) (now : Time) (form : Bool × Request)
      → ((ch : Channel) → P (with_db w (channels.create ch w.cache.db).1))
      → P (create_parsed channels lib now form w).1
  unfolding create_parsed
  create_parsed_cases lib now (false, r) stored = same
  create_parsed_cases lib now (true, r) stored = create_channel_cases lib now _ _ _ stored

  -- A property of the state afterwards: of the old state, or with what a query leaves.
  pub handle_create_cases :
      (lib : Library) (now : Time) (r : Request)
      → ((ch : Channel) → P (with_db w (channels.create ch w.cache.db).1))
      → P (handle_create channels lib now r w).1
  unfolding handle_create
  handle_create_cases lib now r stored = create_parsed_cases lib now _ stored

  delete_parsed_cases :
      (id : Option ℤ)
      → ((key : ℕ) → P (with_db w (channels.delete key w.cache.db).1))
      → P (delete_parsed channels id w).1
  unfolding delete_parsed
  delete_parsed_cases none deleted = same
  delete_parsed_cases (some z) deleted = deleted (row_key z)

  pub handle_delete_cases :
      (id : Text)
      → ((key : ℕ) → P (with_db w (channels.delete key w.cache.db).1))
      → P (handle_delete channels id w).1
  unfolding handle_delete
  handle_delete_cases id deleted = delete_parsed_cases (atoi id) deleted

  assigned_cases :
      (check : Text) (r : Bool × Db) → P (with_db w r.1) → P (assigned channels check w r).1
  unfolding assigned
  assigned_cases check (true, db) h = h
  assigned_cases check (false, db) h = h

  assign_parsed_cases :
      (check : Text) (form : Bool × Request)
      → ((ids : List ℕ) → P (with_db w (assign_channels channels check ids w.cache.db).1))
      → P (assign_parsed channels check form w).1
  unfolding assign_parsed
  assign_parsed_cases check (false, r) linked = same
  assign_parsed_cases check (true, r) linked = assigned_cases check _ (linked _)

  pub handle_attach_detach_cases :
      (check : Text) (r : Request)
      → ((ids : List ℕ) → P (with_db w (assign_channels channels check ids w.cache.db).1))
      → P (handle_attach_detach channels check r w).1
  unfolding handle_attach_detach
  handle_attach_detach_cases check r linked = elim (Bool-cases (is_some (get check w.cache))) [
    | inl e ↦ rw e (assign_parsed_cases check _ linked)
    | inr e ↦ rw e same
  ]
