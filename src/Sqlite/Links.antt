-- ===== src/Sqlite/Links.antt =====
-- The links of checks and channels as a set: AttachToCheck and DetachFromCheck of
-- internal/repository/channel_repo.go.
use cron_mon.Base.{
  ℕ, ◌≡◌, inl, inr, Bool, true, ◌&&◌, ◌||◌, not, is_some, List, [], ◌∷◌, ◌++◌, arith, ◌==◌,
  Bool-cases,
}
use cron_mon.Base.Text.{Text, text_eq, text_eq_iff}
use cron_mon.Table.{lookup}
use cron_mon.Sqlite.{Db, exec}
use cron_mon.Sqlite.Channels.{
  linked, find_row, link_statement, attach_to_check, without_link, detach_from_check,
}

-- Whether a link is that of a check and a channel.
abbrev pub is_link : Text → ℕ → Text → ℕ → Bool
is_link check channel i c = text_eq check i && channel == c

pub linked-append :
    (check i : Text) (channel c : ℕ) (links : List (Text × ℕ))
    → linked i c (links ++ (check, channel) ∷ []) ≡ (linked i c links || is_link check channel i c)
unfolding linked
linked-append check i channel c [] = ground arith
linked-append check i channel c ((j, d) ∷ links) =
    ground (arith, linked-append check i channel c links)

pub linked-without_link :
    (check i : Text) (channel c : ℕ) (links : List (Text × ℕ))
    → linked i c (without_link check channel links)
      ≡ (linked i c links && not (is_link check channel i c))
unfolding linked without_link
linked-without_link check i channel c [] = ground arith
linked-without_link check i channel c ((j, d) ∷ links) = ground (
  arith,
  linked-without_link check i channel c links,
  text_eq_iff check i,
  text_eq_iff j check,
  text_eq_iff j i,
)

linked-eq :
    (check i : Text) (channel c : ℕ) (links : List (Text × ℕ))
    → is_link check channel i c ≡ true
    → linked check channel links ≡ linked i c links
linked-eq check i channel c links same =
    let texts : check ≡ i = ground (arith, text_eq_iff check i) in
    let numbers : channel ≡ c = ground arith in cc

pub already :
    (check i : Text) (channel c : ℕ) (links : List (Text × ℕ))
    → linked check channel links ≡ true
    → linked i c links ≡ (linked i c links || is_link check channel i c)
already check i channel c links h = elim (Bool-cases (is_link check channel i c)) [
  | inl e ↦ ground (arith, e, linked-eq check i channel c links e)
  | inr e ↦ ground (arith, e)
]

-- If the driver does not fail, attaching a channel that exists to a check that exists adds their
-- link to the set of links, whether it was there or not, and detaching removes it.
pub linked-attach_detach :
    (check i : Text) (channel c : ℕ) (db : Db)
    → db.faults ≡ []
    → is_some (lookup check db.checks) ≡ true
    → is_some (find_row channel db.channels) ≡ true
    → (linked i c (attach_to_check check channel db).1.check_channels
        ≡ (linked i c db.check_channels || is_link check channel i c))
      × (linked i c (detach_from_check check channel db).1.check_channels
          ≡ (linked i c db.check_channels && not (is_link check channel i c)))
unfolding attach_to_check detach_from_check exec
linked-attach_detach check i channel c db quiet there exists = (
  elim (Bool-cases (linked check channel db.check_channels)) [
    | inl p ↦ rw (quiet, link_statement, p) (already check i channel c db.check_channels p)
    | inr p ↦
        rw (quiet, link_statement, p, there, exists)
          (linked-append check i channel c db.check_channels)
  ],
  rw quiet (linked-without_link check i channel c db.check_channels),
)
