-- ===== src/Model.antt =====
-- internal/model/model.go: the domain types. A pointer that may be nil is an `Option`.
pub mod Pausing
use cron_mon.Base.{ℕ, Bool, true, false, Option}
use cron_mon.Base.Int.{ℤ}
use cron_mon.Base.Text.{Text, quoted}
use cron_mon.Time.{Time}

-- The monitoring state of a check; `other` is any other string of the type.
pub data Status : Type 0 where
  new up down paused : Status
  other : Text → Status

-- The string of a status.
unfoldable pub status_text : Status → Text
status_text new = quoted "new"
status_text up = quoted "up"
status_text down = quoted "down"
status_text paused = quoted "paused"
status_text (other s) = s

-- Comparisons of a status with one of the constants.
abbrev pub is_up : Status → Bool
is_up up = true
is_up _ = false

abbrev pub is_down : Status → Bool
is_down down = true
is_down _ = false

abbrev pub is_new : Status → Bool
is_new new = true
is_new _ = false

abbrev pub is_paused : Status → Bool
is_paused paused = true
is_paused _ = false

pub data PingType : Type 0 where
  success start fail : PingType

pub data AlertType : Type 0 where
  down up fail : AlertType

-- string(alertType)
unfoldable pub alert_type_text : AlertType → Text
alert_type_text AlertType.down = quoted "down"
alert_type_text AlertType.up = quoted "up"
alert_type_text AlertType.fail = quoted "fail"

pub record Check : Type 0 where
  pub id : Text
  pub name : Text
  pub slug : Option Text
  pub schedule : Text
  pub grace : ℤ
  pub status : Status
  pub pre_pause_status : Option Status
  pub last_ping_at : Option Time
  pub next_expected_at : Option Time
  pub created_at : Time
  pub updated_at : Time
  pub tags : Text
  pub notify_on_fail : Bool

pub record Ping : Type 0 where
  pub id : ℕ
  pub check_id : Text
  pub type : PingType
  pub created_at : Time
  pub source_ip : Text

pub record Channel : Type 0 where
  pub id : ℕ
  pub type : Text
  pub name : Text
  pub config : Text
  pub created_at : Time

pub record Notification : Type 0 where
  pub id : ℕ
  pub check_id : Text
  pub channel_id : Option ℕ
  pub type : AlertType
  pub sent_at : Time
  pub error : Option Text

pub record AlertEvent : Type 0 where
  pub check : Check
  pub channel : Channel
  pub alert_type : AlertType
