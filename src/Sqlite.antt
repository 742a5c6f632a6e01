-- ===== src/Sqlite.antt =====
-- The database behind internal/repository: the tables of internal/db/migrations/001_initial.sql,
-- and the conversions of internal/repository/repository.go. A DATETIME text is given by the
-- seconds of its instant, whose order is that of the texts where years have four digits. Each
-- statement may fail in the driver: `faults` says which of the next statements do. The results
-- that the driver reports of a statement are taken to be there.
pub mod Checks
pub mod Pings
pub mod Channels
pub mod Notifications
pub mod Reading
pub mod Retention
pub mod Links
pub mod Cascade
pub mod Listing
pub mod Store
use cron_mon.Base.{
  ℕ, suc, ◌-◌, ◌*◌, ◌/◌, ◌≡◌, Bool, true, false, ◌&&◌, ◌||◌, not, Option, none, some, List, [], ◌∷◌,
  Result, ok, err, Error, failed, if◌then◌else◌,
}
use cron_mon.Base.Int.{ℤ, pos, negsuc, ltb_ℤ}
use cron_mon.Base.Text.{Text, text_eq, quoted}
use cron_mon.Time.{Time, second}
use cron_mon.Model.{Status, PingType, AlertType, Check, new, up, down, paused, other}
use cron_mon.Table.{Table}
use cron_mon.Table.Laws.{Distinct}

-- The instant of an RFC3339 text, in seconds since the Unix epoch.
abbrev pub Stamp : Type 0
Stamp = ℤ

infixl 5 ◌>>=◌
-- Go's `if err != nil { return nil, err }` after a call.
abbrev pub ◌>>=◌ {ι ν} : {T : Type ι} {U : Type ν} → Result T → (T → Result U) → Result U
err e >>= next = err e
ok t >>= next = next t

-- formatTime: the fraction of a second is dropped.
unfoldable pub format_time : Time → Stamp
format_time (pos n) = pos (n / second)
format_time (negsuc n) = negsuc (n / second)

abbrev year_0 : Stamp
year_0 = negsuc (62_167_219_200 - 1)

abbrev year_10000 : Stamp
year_10000 = pos 253_402_300_800

unfoldable pub instant : Stamp → Time
instant (pos s) = pos (s * second)
instant (negsuc s) = negsuc (suc s * second - 1)

-- parseTime: RFC3339 has four digits for the year.
unfoldable pub parse_time : Stamp → Result Time
unfolding instant
parse_time s = if ltb_ℤ s year_0 || not (ltb_ℤ s year_10000) then err failed else ok (instant s)

-- parseTimePtr
unfoldable pub parse_time_ptr : Option Stamp → Result (Option Time)
unfolding parse_time
parse_time_ptr none = ok none
parse_time_ptr (some s) = do t ← parse_time s; ok (some t)

-- model.Status(s)
unfoldable pub status_of_text : Text → Status
unfolding text_eq
status_of_text s =
    if text_eq s (quoted "new")
    then new
    else if text_eq s (quoted "up")
    then up
    else if text_eq s (quoted "down")
    then down
    else if text_eq s (quoted "paused")
    then paused
    else other s

-- The columns of `checks`, but for the primary key.
pub record CheckRow : Type 0 where
  pub name : Text
  pub slug : Option Text
  pub schedule : Text
  pub grace : ℤ
  pub status : Text
  pub pre_pause_status : Option Text
  pub last_ping_at : Option Stamp
  pub next_expected_at : Option Stamp
  pub created_at : Stamp
  pub updated_at : Stamp
  pub tags : Text
  pub notify_on_fail : ℕ

pub record PingRow : Type 0 where
  pub id : ℕ
  pub check_id : Text
  pub type : PingType
  pub created_at : Stamp
  pub source_ip : Text

pub record ChannelRow : Type 0 where
  pub id : ℕ
  pub type : Text
  pub name : Text
  pub config : Text
  pub created_at : Stamp

pub record NotificationRow : Type 0 where
  pub id : ℕ
  pub check_id : Text
  pub channel_id : Option ℕ
  pub type : AlertType
  pub sent_at : Stamp
  pub error : Option Text

-- The tables, in rowid order, and the counters of the AUTOINCREMENT keys.
pub record Db : Type 0 where
  pub checks : Table CheckRow
  pub checks_distinct : Distinct checks
  pub ping_rows : List PingRow
  pub channels : List ChannelRow
  pub check_channels : List (Text × ℕ)
  pub notifications : List NotificationRow
  pub next_ping : ℕ
  pub next_channel : ℕ
  pub next_notification : ℕ
  pub faults : List Bool

-- Whether the next statement fails in the driver.
abbrev pub next_fault : List Bool → Bool
next_fault [] = false
next_fault (f ∷ fs) = f

abbrev pub later_faults : List Bool → List Bool
later_faults [] = []
later_faults (f ∷ fs) = fs

-- A statement that fails changes nothing but that.
abbrev pub executed : Db → Db
executed db = record db { faults = later_faults db.faults }

-- Run a statement on the database, unless the driver fails.
unfoldable pub exec : {A : Type 0} → (Db → Result A × Db) → Db → Result A × Db
exec statement db =
    if next_fault db.faults then (err failed, executed db) else statement (executed db)
