-- ===== src/Handler/Ping/Transitions.antt =====
-- What the pings of internal/handler/ping.go make of a check.
use cron_mon.Base.{◌≡◌, true, false, arith}
use cron_mon.Time.{Time}
use cron_mon.Model.{Check, is_paused}
use cron_mon.Model.Pausing.{pause_sound}
use cron_mon.Schedule.{Cron}
use cron_mon.Handler.Ping.{started, completed}

pub started-pause_sound :
    (now : Time) (c : Check) → pause_sound c ≡ true → pause_sound (started now c) ≡ true
unfolding started
started-pause_sound now c h = h

pub completed-pause_sound :
    (cron : Cron) (now : Time) (c : Check)
    → is_paused c.status ≡ false
    → pause_sound c ≡ true
    → pause_sound (completed cron now c) ≡ true
unfolding completed
completed-pause_sound cron now c active h = ground arith
