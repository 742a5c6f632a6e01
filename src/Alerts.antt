-- ===== src/Alerts.antt =====
-- The alert channel that main.go makes (`make(chan model.AlertEvent, 64)`), its non-blocking
-- senders in internal/scheduler/scheduler.go and internal/handler/ping.go.
pub mod Capacity
use cron_mon.Base.{ℕ, List, [], ◌∷◌, ◌++◌, Option, none, some, length, ltb, if◌then◌else◌}
use cron_mon.Model.{Check, Channel, AlertType, AlertEvent}

-- A buffered channel: what waits in it, oldest first, and its capacity.
pub record AlertChannel : Type 0 where
  pub queue : List AlertEvent
  pub capacity : ℕ

-- make(chan model.AlertEvent, 64)
abbrev pub make_alert_channel : AlertChannel
make_alert_channel = record { queue = []; capacity = 64 }

-- select { case ch <- event: default: }
unfoldable pub try_send : AlertEvent → AlertChannel → AlertChannel
try_send event ch =
    if ltb (length ch.queue) ch.capacity then record ch { queue = ch.queue ++ event ∷ [] } else ch

abbrev pub alert_event : Check → AlertType → Channel → AlertEvent
alert_event check type channel = record { check = check; channel = channel; alert_type = type }

-- One event for each subscribed channel.
unfoldable pub send_all : Check → AlertType → List Channel → AlertChannel → AlertChannel
send_all check type [] ch = ch
send_all check type (channel ∷ rest) ch =
    send_all check type rest (try_send (alert_event check type channel) ch)

-- The worker's `range alertCh`: the oldest event, if any.
unfoldable pub receive : AlertChannel → Option (AlertEvent × AlertChannel)
receive ch = elim ch.queue [ [] ↦ none | event ∷ rest ↦ some (event, record ch { queue = rest }) ]
