-- ===== src/Handler/Ping/Cases.antt =====
-- The branches of `handle` in internal/handler/ping.go.
use cron_mon.Base.{◌≡◌, refl, Bool, false, Option, none, some, inl, inr, Bool-cases}
use cron_mon.Base.Text.{Text}
use cron_mon.Time.{Time}
use cron_mon.Model.{Check, PingType, is_paused}
use cron_mon.Schedule.{Cron}
use cron_mon.Repository.{CheckRepository, ChannelRepository, PingRepository}
use cron_mon.Cache.{get}
use cron_mon.World.{World}
use cron_mon.Http.{Request}
use cron_mon.Handler.Ping.{complete_or_start, record_ping, handle_known, handle}

module _ (cron : Cron) {Db : Type 0} (checks : CheckRepository Db) (channels : ChannelRepository Db)
    (ping_rows : PingRepository Db) (trusted_proxy : Bool) (uuid : Text) (type : PingType)
    (now : Time) (r : Request) (w : World Db) where
  -- A property of the state afterwards: of the old state where the check that was read is unknown
  -- or paused, and of the updated one else.
  pub handle_known_cases {ℓ} :
      (P : World Db → Type ℓ) (read : Option Check)
      → P w
      → ((c : Check)
          → read ≡ some c
          → is_paused c.status ≡ false
          → P (
              record_ping ping_rows trusted_proxy c type now r
                (complete_or_start cron checks channels type c now w)))
      → P (handle_known cron checks channels ping_rows trusted_proxy read type now r w)
  unfolding handle_known
  handle_known_cases P none ignored known = ignored
  handle_known_cases P (some c) ignored known = elim (Bool-cases (is_paused c.status)) [
    | inl p ↦ rw p ignored
    | inr p ↦ rw p (known c refl p)
  ]

  pub handle_cases {ℓ} :
      (P : World Db → Type ℓ)
      → P w
      → ((c : Check)
          → get uuid w.cache ≡ some c
          → is_paused c.status ≡ false
          → P (
              record_ping ping_rows trusted_proxy c type now r
                (complete_or_start cron checks channels type c now w)))
      → P (handle cron checks channels ping_rows trusted_proxy uuid type now r w).1
  unfolding handle
  handle_cases P = handle_known_cases P (get uuid w.cache)
