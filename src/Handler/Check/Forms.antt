-- ===== src/Handler/Check/Forms.antt =====
-- What the forms and the pause button of internal/handler/check.go make of a check.
use cron_mon.Base.{◌≡◌, true, arith}
use cron_mon.Time.{Time}
use cron_mon.Model.{Check}
use cron_mon.Model.Pausing.{pause_sound}
use cron_mon.Handler.Check.{toggled}

pub toggled-pause_sound :
    (now : Time) (c : Check) → pause_sound c ≡ true → pause_sound (toggled now c) ≡ true
unfolding toggled
toggled-pause_sound now c h = ground arith

-- For a check that is paused exactly if it has saved a status, which is not "paused": pausing and
-- unpausing it, or the other way round, changes nothing but `updated_at`.
pub toggled-toggled :
    (now later : Time) (c : Check)
    → pause_sound c ≡ true
    → toggled later (toggled now c) ≡ record c { updated_at = later }
unfolding toggled
toggled-toggled now later c h = ground arith

pub id-toggled : (now : Time) (c : Check) → (toggled now c).id ≡ c.id
unfolding toggled
id-toggled now c = ground arith

pub created-toggled : (now : Time) (c : Check) → (toggled now c).created_at ≡ c.created_at
unfolding toggled
created-toggled now c = ground arith
