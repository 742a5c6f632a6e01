-- ===== src/Handler/Channel/Assignment.antt =====
-- The channels of a check after HandleAttachDetach of internal/handler/channel.go, over the SQLite
-- repository.
use cron_mon.Base.{
  ℕ, ◌≡◌, refl, sym, ap, ◌∙◌, inl, inr, Bool, true, false, ◌&&◌, ◌||◌, not, is_some, List, [], ◌∷◌,
  ◌++◌, All, Result, ok, err, arith, ◌==◌, ==_iff, if◌then◌else◌, Bool-cases, Option-cases,
  Result-cases,
}
use cron_mon.Base.Text.{Text, text_eq}
use cron_mon.Model.{Channel}
use cron_mon.Table.{lookup}
use cron_mon.Sqlite.{Db, exec}
use cron_mon.Sqlite.Channels.{
  linked, find_row, link_statement, attach_to_check, without_link, detach_from_check, found_row,
  get_by_id, channel_repository,
}
use cron_mon.Sqlite.Listing.{has_channel}
use cron_mon.Sqlite.Links.{is_link, linked-append, linked-without_link, already}
use cron_mon.Handler.Channel.{has_id, known_ids, detach_others, attach_all, go_on, keep_if}

-- The database with other links, after statements that all succeeded.
abbrev pub relinked : List (Text × ℕ) → Db → Db
relinked links db = record db { check_channels = links; faults = [] }

relinked_self : (db : Db) → db.faults ≡ [] → db ≡ relinked db.check_channels db
relinked_self db quiet = λ i. record db { faults = quiet i }

detach-relinked :
    (check : Text) (channel : ℕ) (db : Db)
    → db.faults ≡ []
    → detach_from_check check channel db
      ≡ (ok tt, relinked (without_link check channel db.check_channels) db)
unfolding detach_from_check exec
detach-relinked check channel db quiet = rw quiet refl

unfoldable pub attached_links : Text → ℕ → List (Text × ℕ) → List (Text × ℕ)
attached_links check channel links =
    if linked check channel links then links else links ++ (check, channel) ∷ []

attach-relinked :
    (check : Text) (channel : ℕ) (db : Db)
    → db.faults ≡ []
    → is_some (lookup check db.checks) ≡ true
    → is_some (find_row channel db.channels) ≡ true
    → attach_to_check check channel db
      ≡ (ok tt, relinked (attached_links check channel db.check_channels) db)
unfolding attach_to_check exec attached_links
attach-relinked check channel db quiet there exists =
    elim (Bool-cases (linked check channel db.check_channels)) [
      | inl p ↦ rw (quiet, link_statement, p) refl
      | inr p ↦ rw (quiet, link_statement, p, there, exists) refl
    ]

linked-attached_links :
    (check i : Text) (channel c : ℕ) (links : List (Text × ℕ))
    → linked i c (attached_links check channel links)
      ≡ (linked i c links || is_link check channel i c)
unfolding attached_links
linked-attached_links check i channel c links = elim (Bool-cases (linked check channel links)) [
  | inl p ↦ rw p (already check i channel c links p)
  | inr p ↦ rw p (linked-append check i channel c links)
]

module _ (check : Text) (desired : List ℕ) where
  unfoldable pub detached : List Channel → List (Text × ℕ) → List (Text × ℕ)
  detached [] links = links
  detached (ch ∷ current) links =
      detached current (if has_id ch.id desired then links else without_link check ch.id links)

  pub detach_others-relinked :
      (current : List Channel) (db : Db)
      → db.faults ≡ []
      → detach_others channel_repository check desired current db
        ≡ (true, relinked (detached current db.check_channels) db)
  unfolding detach_others detached
  detach_others-relinked [] db quiet = ap (λ d. (true, d)) (relinked_self db quiet)
  detach_others-relinked (ch ∷ current) db quiet = elim (Bool-cases (has_id ch.id desired)) [
    | inl p ↦ rw p (detach_others-relinked current db quiet)
    | inr p ↦
        rw (p, detach-relinked check ch.id db quiet, go_on)
          (detach_others-relinked current (relinked (without_link check ch.id db.check_channels) db)
            refl)
  ]

  same_id : (a c : ℕ) → (a == c) ≡ true → has_id a desired ≡ has_id c desired
  same_id a c e = ap (λ n. has_id n desired) ((==_iff a c).0 e)

  pub linked-detached :
      (i : Text) (c : ℕ) (current : List Channel) (links : List (Text × ℕ))
      → linked i c (detached current links) ≡ (
          linked i c links
          && not (text_eq check i && has_channel c current && not (has_id c desired)))
  unfolding detached
  linked-detached i c [] links = ground arith
  linked-detached i c (ch ∷ current) links = elim (Bool-cases (has_id ch.id desired)) [
    | inl p ↦ rw p (linked-detached i c current links ∙ ground (arith, p, same_id ch.id c))
    | inr p ↦ rw p (
        linked-detached i c current (without_link check ch.id links)
        ∙ ground (arith, p, linked-without_link check i ch.id c links, same_id ch.id c))
  ]

module _ (check : Text) where
  unfoldable pub attached : List ℕ → List (Text × ℕ) → List (Text × ℕ)
  attached [] links = links
  attached (id ∷ ids) links = attached ids (attached_links check id links)

  pub attach_all-relinked :
      (ids : List ℕ) (db : Db)
      → db.faults ≡ []
      → is_some (lookup check db.checks) ≡ true
      → All (λ id. is_some (find_row id db.channels) ≡ true) ids
      → attach_all channel_repository check ids db
        ≡ (true, relinked (attached ids db.check_channels) db)
  unfolding attach_all attached
  attach_all-relinked [] db quiet there exist = ap (λ d. (true, d)) (relinked_self db quiet)
  attach_all-relinked (id ∷ ids) db quiet there exist =
      rw (attach-relinked check id db quiet there exist.0, go_on)
        (attach_all-relinked ids (relinked (attached_links check id db.check_channels) db) refl
          there exist.1)

  pub linked-attached :
      (i : Text) (c : ℕ) (ids : List ℕ) (links : List (Text × ℕ))
      → linked i c (attached ids links) ≡ (linked i c links || text_eq check i && has_id c ids)
  unfolding attached has_id
  linked-attached i c [] links = ground arith
  linked-attached i c (id ∷ ids) links =
      linked-attached i c ids (attached_links check id links)
      ∙ ground (arith, linked-attached_links check i id c links)

abbrev pub is_ok : Result Channel → Bool
is_ok (err e) = false
is_ok (ok ch) = true

-- Whether the channel is there and can be read.
unfoldable pub readable : Db → ℕ → Bool
readable db id = is_ok (get_by_id id db).0

unfoldable pub kept_ids : Db → List ℕ → List ℕ
kept_ids db [] = []
kept_ids db (id ∷ ids) = if readable db id then id ∷ kept_ids db ids else kept_ids db ids

get_by_id_self : (id : ℕ) (db : Db) → db.faults ≡ [] → (get_by_id id db).1 ≡ db
unfolding get_by_id exec
get_by_id_self id db quiet = rw quiet refl ∙ sym (relinked_self db quiet)

pub known_ids_self :
    (ids : List ℕ) (db : Db)
    → db.faults ≡ []
    → known_ids channel_repository ids db ≡ (kept_ids db ids, db)
unfolding known_ids kept_ids keep_if readable
known_ids_self [] db quiet = refl
known_ids_self (id ∷ ids) db quiet =
    rw (get_by_id_self id db quiet, known_ids_self ids db quiet)
      (elim (Result-cases (get_by_id id db).0) [ inl (ch, p) ↦ rw p refl | inr (e, p) ↦ rw p refl ])

pub has_id-kept_ids :
    (db : Db) (c : ℕ) (ids : List ℕ) → has_id c (kept_ids db ids) ≡ (has_id c ids && readable db c)
unfolding kept_ids has_id
has_id-kept_ids db c [] = refl
has_id-kept_ids db c (id ∷ ids) = elim (Bool-cases (id == c)) [
  | inl e ↦
      let number : id ≡ c = (==_iff id c).0 e in
      ground (arith, e, has_id-kept_ids db c ids, ap (readable db) number)
  | inr e ↦ ground (arith, e, has_id-kept_ids db c ids)
]

readable-exists :
    (db : Db) (id : ℕ)
    → db.faults ≡ []
    → readable db id ≡ true
    → is_some (find_row id db.channels) ≡ true
unfolding get_by_id exec readable found_row
readable-exists db id quiet h = elim (Option-cases (find_row id db.channels)) [
  | inl p ↦ cc (rw (quiet, p) at h)
  | inr (row, p) ↦ rw p refl
]

pub exist-kept_ids :
    (db : Db) (ids : List ℕ)
    → db.faults ≡ []
    → All (λ id. is_some (find_row id db.channels) ≡ true) (kept_ids db ids)
unfolding kept_ids
exist-kept_ids db [] quiet = tt
exist-kept_ids db (id ∷ ids) quiet = elim (Bool-cases (readable db id)) [
  | inl e ↦ rw e (readable-exists db id quiet e, exist-kept_ids db ids quiet)
  | inr e ↦ rw e (exist-kept_ids db ids quiet)
]
