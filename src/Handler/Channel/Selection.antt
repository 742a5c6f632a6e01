-- ===== src/Handler/Channel/Selection.antt =====
-- HandleAttachDetach of internal/handler/channel.go as a whole, over the SQLite repository.
use cron_mon.Base.{
  ℕ, ◌≡◌, refl, ap, ◌∙◌, inl, inr, true, ◌&&◌, is_some, List, [], ok, arith, if◌then◌else◌,
  Bool-cases,
}
use cron_mon.Base.Text.{Text, text_eq, text_eq_iff}
use cron_mon.Model.{Channel}
use cron_mon.Table.{lookup}
use cron_mon.Sqlite.{Db}
use cron_mon.Sqlite.Channels.{linked, find_row, list_by_check_id, channel_repository}
use cron_mon.Sqlite.Listing.{has_channel-list_by_check_id, list_by_check_id-quiet}
use cron_mon.Handler.Channel.{has_id, assign, attach_after, assign_channels}
use cron_mon.Handler.Channel.Assignment.{
  relinked, detached, attached, kept_ids, readable, detach_others-relinked, linked-detached,
  attach_all-relinked, linked-attached, known_ids_self, has_id-kept_ids, exist-kept_ids,
}

module _ (check : Text) (ids : List ℕ) (db : Db) (current : List Channel) (quiet : db.faults ≡ [])
    (there : is_some (lookup check db.checks) ≡ true)
    (listed : (list_by_check_id check db).0 ≡ ok current) where
  final_links : List (Text × ℕ)
  final_links =
      attached check (kept_ids db ids) (detached check (kept_ids db ids) current db.check_channels)

  assign_channels-relinked :
      assign_channels channel_repository check ids db ≡ (true, relinked final_links db)
  unfolding assign_channels assign attach_after final_links
  assign_channels-relinked =
      let db0 : Db = record db { faults = [] } in
      let query : list_by_check_id check db ≡ (ok current, db0) =
        λ i. (listed i, list_by_check_id-quiet check db quiet i) in
      rw (known_ids_self ids db quiet, assign_channels)
        (rw (query, assign)
          (rw (detach_others-relinked check (kept_ids db ids) current db0 refl, attach_after)
            (attach_all-relinked check (kept_ids db ids)
              (relinked (detached check (kept_ids db ids) current db.check_channels) db) refl there
              (exist-kept_ids db ids quiet))))

  linked-final_links :
      (i : Text) (c : ℕ)
      → (linked check c db.check_channels ≡ true → is_some (find_row c db.channels) ≡ true)
      → linked i c final_links
        ≡ (if text_eq check i then has_id c ids && readable db c else linked i c db.check_channels)
  unfolding final_links
  linked-final_links i c intact =
      linked-attached check i c (kept_ids db ids)
        (detached check (kept_ids db ids) current db.check_channels)
      ∙ elim (Bool-cases (text_eq check i)) [
        | inl same ↦ ground (
          arith,
          same,
          intact,
          linked-detached check (kept_ids db ids) i c current db.check_channels,
          has_channel-list_by_check_id check c db current quiet listed,
          has_id-kept_ids db c ids,
          ap (λ j. linked j c db.check_channels) ((text_eq_iff check i).0 same),
        )
        | inr other ↦
            ground
              (arith, other, linked-detached check (kept_ids db ids) i c current db.check_channels)
      ]

  -- Where the driver does not fail, a check exists, its channels can be listed, and a link of it
  -- to the channel in question leads to a channel that exists, assigning channels succeeds. Then
  -- the check is linked to that channel exactly if it is chosen and can be read, and the links of
  -- every other check are as they were.
  pub linked-assign_channels :
      (i : Text) (c : ℕ)
      → (linked check c db.check_channels ≡ true → is_some (find_row c db.channels) ≡ true)
      → ((assign_channels channel_repository check ids db).0 ≡ true)
        × (linked i c (assign_channels channel_repository check ids db).1.check_channels ≡ (
            if text_eq check i
            then has_id c ids && readable db c
            else linked i c db.check_channels))
  linked-assign_channels i c intact =
      rw assign_channels-relinked (refl, linked-final_links i c intact)
