-- ===== src/Sqlite/Listing.antt =====
-- What ListByCheckID of internal/repository/channel_repo.go lists.
use cron_mon.Base.{
  ℕ, ◌≡◌, refl, sym, ap, ◌∙◌, inl, inr, Bool, false, ◌&&◌, ◌||◌, is_some, List, [], ◌∷◌, ok, arith,
  ◌==◌, ==_iff, Bool-cases,
}
use cron_mon.Base.Text.{Text}
use cron_mon.Base.Sorting.{insert_by, sort_by}
use cron_mon.Model.{Channel}
use cron_mon.Sqlite.{Db, ChannelRow, exec, parse_time}
use cron_mon.Sqlite.Channels.{
  linked, find_row, joined, scan_channel, scan_channels, list_by_check_id,
}
use cron_mon.Sqlite.Reading.{>>=-eq-ok}

abbrev pub has_channel : ℕ → List Channel → Bool
has_channel c [] = false
has_channel c (ch ∷ chs) = ch.id == c || has_channel c chs

abbrev has_row : ℕ → List ChannelRow → Bool
has_row c [] = false
has_row c (row ∷ rows) = row.id == c || has_row c rows

has_row-find_row : (c : ℕ) (rows : List ChannelRow) → has_row c rows ≡ is_some (find_row c rows)
unfolding find_row
has_row-find_row c [] = refl
has_row-find_row c (row ∷ rows) = ground (arith, has_row-find_row c rows)

has_row-joined :
    (id : Text) (links : List (Text × ℕ)) (c : ℕ) (rows : List ChannelRow)
    → has_row c (joined id links rows) ≡ (has_row c rows && linked id c links)
unfolding joined
has_row-joined id links c [] = refl
has_row-joined id links c (row ∷ rows) = elim (Bool-cases (row.id == c)) [
  | inl e ↦ ground (
    arith,
    e,
    has_row-joined id links c rows,
    ap (λ n. linked id n links) ((==_iff row.id c).0 e),
  )
  | inr e ↦ ground (arith, e, has_row-joined id links c rows)
]

module _ (le : ChannelRow → ChannelRow → Bool) (c : ℕ) where
  has_row-insert_by :
      (row : ChannelRow) (rows : List ChannelRow)
      → has_row c (insert_by le row rows) ≡ (row.id == c || has_row c rows)
  unfolding insert_by
  has_row-insert_by row [] = refl
  has_row-insert_by row (r ∷ rows) = ground (arith, has_row-insert_by row rows)

  has_row-sort_by : (rows : List ChannelRow) → has_row c (sort_by le rows) ≡ has_row c rows
  unfolding sort_by
  has_row-sort_by [] = refl
  has_row-sort_by (row ∷ rows) =
      has_row-insert_by row (sort_by le rows) ∙ ap (λ b. row.id == c || b) (has_row-sort_by rows)

id-scan_channel : (row : ChannelRow) (ch : Channel) → scan_channel row ≡ ok ch → row.id ≡ ch.id
unfolding scan_channel
id-scan_channel row ch h = let (created, p, h') = >>=-eq-ok (parse_time row.created_at) _ h in cc h'

has_channel-scan_channels :
    (c : ℕ) (rows : List ChannelRow) (chs : List Channel)
    → scan_channels rows ≡ ok chs
    → has_channel c chs ≡ has_row c rows
unfolding scan_channels
has_channel-scan_channels c [] chs h = let e : [] ≡ chs = cc h in ap (has_channel c) (sym e)
has_channel-scan_channels c (row ∷ rows) chs h =
    let (ch, p, h1) = >>=-eq-ok (scan_channel row) _ h in
    let (rest, q, h2) = >>=-eq-ok (scan_channels rows) _ h1 in
    let e : ch ∷ rest ≡ chs = cc h2 in
    let same : (ch.id == c) ≡ (row.id == c) = ap (λ n. n == c) (sym (id-scan_channel row ch p)) in
    ap (has_channel c) (sym e) ∙ ground (arith, same, has_channel-scan_channels c rows rest q)

-- A listing that succeeds lists the channels that are linked to the check.
pub has_channel-list_by_check_id :
    (id : Text) (c : ℕ) (db : Db) (chs : List Channel)
    → db.faults ≡ []
    → (list_by_check_id id db).0 ≡ ok chs
    → has_channel c chs ≡ (is_some (find_row c db.channels) && linked id c db.check_channels)
unfolding list_by_check_id exec
has_channel-list_by_check_id id c db chs quiet h =
    has_channel-scan_channels c _ chs (rw quiet at h)
    ∙ has_row-sort_by _ c (joined id db.check_channels db.channels)
    ∙ has_row-joined id db.check_channels c db.channels
    ∙ ap (λ b. b && linked id c db.check_channels) (has_row-find_row c db.channels)

pub list_by_check_id-quiet :
    (id : Text) (db : Db) → db.faults ≡ [] → (list_by_check_id id db).1 ≡ record db { faults = [] }
unfolding list_by_check_id exec
list_by_check_id-quiet id db quiet = rw quiet refl
