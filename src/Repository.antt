-- ===== src/Repository.antt =====
-- The repository interfaces of internal/repository, as the other packages see them: each method
-- takes the database to its result and the database afterwards, reads included.
use cron_mon.Base.{ℕ, List, Result}
use cron_mon.Base.Text.{Text}
use cron_mon.Model.{Check, Ping, Channel, Notification}

abbrev pub Query : Type 0 → Type 0 → Type 0
Query Db A = Db → Result A × Db

-- CheckRepository
pub record CheckRepository (Db : Type 0) : Type 0 where
  pub create : Check → Query Db (Unit {0})
  pub get_by_id : Text → Query Db Check
  pub list_all : Query Db (List Check)
  pub update : Check → Query Db (Unit {0})
  pub delete : Text → Query Db (Unit {0})

-- PingRepository
pub record PingRepository (Db : Type 0) : Type 0 where
  pub create : Ping → Query Db (Unit {0})
  pub list_by_check_id : Text → ℕ → Query Db (List Ping)
  pub delete_oldest : Text → ℕ → Query Db (Unit {0})

-- ChannelRepository
pub record ChannelRepository (Db : Type 0) : Type 0 where
  pub create : Channel → Query Db ℕ
  pub get_by_id : ℕ → Query Db Channel
  pub list_all : Query Db (List Channel)
  pub delete : ℕ → Query Db (Unit {0})
  pub list_by_check_id : Text → Query Db (List Channel)
  pub attach_to_check : Text → ℕ → Query Db (Unit {0})
  pub detach_from_check : Text → ℕ → Query Db (Unit {0})

-- NotificationRepository
pub record NotificationRepository (Db : Type 0) : Type 0 where
  pub create : Notification → Query Db ℕ
  pub list_by_check_id : Text → ℕ → Query Db (List Notification)
