-- ===== src/Tests/Assigning.antt =====
-- The theorems on the channels of internal/handler/channel.go at concrete inputs.
use cron_mon.Base.{false, ℕ, ◌≡◌, refl, true, ◌&&◌, none, [], ◌∷◌, if◌then◌else◌}
use cron_mon.Base.Int.{pos}
use cron_mon.Base.Sorting.{sort_by, insert_by}
use cron_mon.Base.Text.{text_eq, quoted}
use cron_mon.Table.{lookup, put}
use cron_mon.Sqlite.{Db, ChannelRow, exec, parse_time, instant}
use cron_mon.Sqlite.Cascade.{delete-cascades}
use cron_mon.Sqlite.Checks.{check_row, delete, put_row}
use cron_mon.Sqlite.Pings.{rows_of}
use cron_mon.Sqlite.Channels.{
  linked, find_row, joined, scan_channel, scan_channels, list_by_check_id, channel_repository,
}
use cron_mon.Handler.Channel.{has_id, assign_channels}
use cron_mon.Handler.Channel.Assignment.{readable}
use cron_mon.Handler.Channel.Selection.{linked-assign_channels}
use cron_mon.Tests.Fixtures.{backup_id, backup, empty_db}

abbrev channel_row : ℕ → ChannelRow
channel_row n = record {
  id = n;
  type = quoted "slack";
  name = quoted "ops";
  config = quoted "{}";
  created_at = pos n;
}

-- A check with the first of two channels.
abbrev linked_db : Db
linked_db = record (put_row backup_id (check_row (backup none)) empty_db) {
  channels = channel_row 1 ∷ channel_row 2 ∷ [];
  check_channels = (backup_id, 1) ∷ [];
}

-- The second channel is chosen, and one that does not exist.
linked-assign_channels_example :
    ((assign_channels channel_repository backup_id (2 ∷ 9 ∷ []) linked_db).0 ≡ true)
    × (linked backup_id 1
          (assign_channels channel_repository backup_id (2 ∷ 9 ∷ []) linked_db).1.check_channels
        ≡ (if text_eq backup_id backup_id
            then has_id 1 (2 ∷ 9 ∷ []) && readable linked_db 1
            else linked backup_id 1 linked_db.check_channels))
unfolding lookup put text_eq find_row list_by_check_id exec joined linked scan_channel scan_channels
    sort_by insert_by parse_time instant
linked-assign_channels_example =
    linked-assign_channels backup_id (2 ∷ 9 ∷ []) linked_db
      (record {
        id = 1;
        type = quoted "slack";
        name = quoted "ops";
        config = quoted "{}";
        created_at = instant (pos 1);
      }
        ∷ [])
      refl refl refl backup_id 1 (λ h. refl)

delete-cascades_example :
    (rows_of backup_id (delete backup_id linked_db).1.ping_rows ≡ [])
    × (linked backup_id 1 (delete backup_id linked_db).1.check_channels ≡ false)
    × (rows_of (quoted "b2") (delete backup_id linked_db).1.ping_rows
        ≡ rows_of (quoted "b2") linked_db.ping_rows)
    × (linked (quoted "b2") 1 (delete backup_id linked_db).1.check_channels
        ≡ linked (quoted "b2") 1 linked_db.check_channels)
unfolding lookup put text_eq
delete-cascades_example = delete-cascades backup_id (quoted "b2") 1 linked_db refl refl refl
