-- ===== src/Model/Pausing.antt =====
-- The rule of internal/model/model.go on PrePauseStatus: the status saved before pausing, restored
-- on unpause.
use cron_mon.Base.{Bool, false, not, none, some, is_some, if◌then◌else◌}
use cron_mon.Model.{Check, is_paused}

-- A paused check has saved a status that is not "paused"; another check has none saved.
abbrev pub pause_sound : Check → Bool
pause_sound c =
    if is_paused c.status
    then elim c.pre_pause_status [ none ↦ false | some s ↦ not (is_paused s) ]
    else not (is_some c.pre_pause_status)
