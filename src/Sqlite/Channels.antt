-- ===== src/Sqlite/Channels.antt =====
-- internal/repository/channel_repo.go
use cron_mon.Base.{
  ℕ, suc, Bool, false, ◌&&◌, ◌||◌, not, Option, none, some, is_some, List, [], ◌∷◌, ◌++◌, Result,
  ok, err, failed, not_found, leb, ◌==◌, if◌then◌else◌,
}
use cron_mon.Base.Int.{ltb_ℤ}
use cron_mon.Base.Sorting.{sort_by}
use cron_mon.Base.Text.{Text, text_eq, quoted}
use cron_mon.Model.{Channel}
use cron_mon.Repository.{ChannelRepository}
use cron_mon.Table.{lookup}
use cron_mon.Sqlite.{ChannelRow, NotificationRow, Db, exec, format_time, parse_time, ◌>>=◌}

-- scanChannel
unfoldable pub scan_channel : ChannelRow → Result Channel
unfolding parse_time
scan_channel row = do
  created ← parse_time row.created_at
  ok (record {
    id = row.id;
    type = row.type;
    name = row.name;
    config = row.config;
    created_at = created;
  })

unfoldable pub scan_channels : List ChannelRow → Result (List Channel)
unfolding scan_channel
scan_channels [] = ok []
scan_channels (row ∷ rows) = do c ← scan_channel row; cs ← scan_channels rows; ok (c ∷ cs)

-- CHECK(type IN ('email','slack','webhook'))
type_allowed : Text → Bool
type_allowed t =
    text_eq t (quoted "email") || text_eq t (quoted "slack") || text_eq t (quoted "webhook")

insert_row : Channel → Db → Db
insert_row ch db =
    let row : ChannelRow = record {
      id = db.next_channel;
      type = ch.type;
      name = ch.name;
      config = ch.config;
      created_at = format_time ch.created_at;
    } in
    record db { channels = db.channels ++ row ∷ []; next_channel = suc db.next_channel }

-- Create, whose result is the ID that it sets.
unfoldable pub create : Channel → Db → Result ℕ × Db
unfolding exec type_allowed insert_row
create ch = exec (λ db.
    if type_allowed ch.type then (ok db.next_channel, insert_row ch db) else (err failed, db))

unfoldable pub find_row : ℕ → List ChannelRow → Option ChannelRow
find_row id [] = none
find_row id (row ∷ rows) = if row.id == id then some row else find_row id rows

unfoldable pub found_row : Option ChannelRow → Result Channel
found_row none = err not_found
found_row (some row) = scan_channel row

-- GetByID
unfoldable pub get_by_id : ℕ → Db → Result Channel × Db
unfolding exec found_row find_row
get_by_id id = exec (λ db. (found_row (find_row id db.channels), db))

-- ORDER BY created_at ASC
oldest_first : ChannelRow → ChannelRow → Bool
oldest_first a b = not (ltb_ℤ b.created_at a.created_at)

-- ListAll
unfoldable pub list_all : Db → Result (List Channel) × Db
unfolding exec sort_by oldest_first scan_channels
list_all = exec (λ db. (scan_channels (sort_by oldest_first db.channels), db))

without_channel : ℕ → List ChannelRow → List ChannelRow
without_channel id [] = []
without_channel id (row ∷ rows) =
    let rest = without_channel id rows in if row.id == id then rest else row ∷ rest

-- ON DELETE CASCADE
unfoldable pub unlinked : ℕ → List (Text × ℕ) → List (Text × ℕ)
unlinked id [] = []
unlinked id ((check, channel) ∷ links) =
    let rest = unlinked id links in if channel == id then rest else (check, channel) ∷ rest

forget : ℕ → Option ℕ → Option ℕ
forget id none = none
forget id (some channel) = if channel == id then none else some channel

-- ON DELETE SET NULL
unfoldable pub forgotten : ℕ → List NotificationRow → List NotificationRow
unfolding forget
forgotten id [] = []
forgotten id (n ∷ ns) = record n { channel_id = forget id n.channel_id } ∷ forgotten id ns

unfoldable pub delete_channel : ℕ → Db → Db
unfolding without_channel unlinked forgotten
delete_channel id db = record db {
  channels = without_channel id db.channels;
  check_channels = unlinked id db.check_channels;
  notifications = forgotten id db.notifications;
}

-- Delete
unfoldable pub delete : ℕ → Db → Result (Unit {0}) × Db
unfolding exec delete_channel find_row
delete id = exec (λ db.
    if is_some (find_row id db.channels)
    then (ok tt, delete_channel id db)
    else (err not_found, db))

unfoldable pub linked : Text → ℕ → List (Text × ℕ) → Bool
linked id channel [] = false
linked id channel ((i, ch) ∷ links) = text_eq i id && ch == channel || linked id channel links

-- The channels that are linked to a check.
unfoldable pub joined : Text → List (Text × ℕ) → List ChannelRow → List ChannelRow
unfolding linked
joined id links [] = []
joined id links (row ∷ rows) =
    let rest = joined id links rows in if linked id row.id links then row ∷ rest else rest

-- ORDER BY created_at ASC, id ASC
oldest_id_first : ChannelRow → ChannelRow → Bool
oldest_id_first a b =
    ltb_ℤ a.created_at b.created_at || (not (ltb_ℤ b.created_at a.created_at) && leb a.id b.id)

-- ListByCheckID
unfoldable pub list_by_check_id : Text → Db → Result (List Channel) × Db
unfolding exec sort_by joined oldest_id_first scan_channels
list_by_check_id id =
    exec (λ db.
      (scan_channels (sort_by oldest_id_first (joined id db.check_channels db.channels)), db))

-- INSERT OR IGNORE passes over a link that is there, but not over a missing check or channel.
unfoldable pub link_statement : Text → ℕ → Db → Result (Unit {0}) × Db
unfolding linked find_row lookup
link_statement id channel db =
    if linked id channel db.check_channels
    then (ok tt, db)
    else if is_some (lookup id db.checks) && is_some (find_row channel db.channels)
    then (ok tt, record db { check_channels = db.check_channels ++ (id, channel) ∷ [] })
    else (err failed, db)

-- AttachToCheck
unfoldable pub attach_to_check : Text → ℕ → Db → Result (Unit {0}) × Db
unfolding exec link_statement linked find_row lookup
attach_to_check id channel = exec (link_statement id channel)

unfoldable pub without_link : Text → ℕ → List (Text × ℕ) → List (Text × ℕ)
without_link id channel [] = []
without_link id channel ((i, ch) ∷ links) =
    let rest = without_link id channel links in
    if text_eq i id && ch == channel then rest else (i, ch) ∷ rest

-- DetachFromCheck
unfoldable pub detach_from_check : Text → ℕ → Db → Result (Unit {0}) × Db
unfolding exec without_link
detach_from_check id channel =
    exec (λ db. (ok tt, record db { check_channels = without_link id channel db.check_channels }))

abbrev pub channel_repository : ChannelRepository Db
channel_repository = record {
  create = create;
  get_by_id = get_by_id;
  list_all = list_all;
  delete = delete;
  list_by_check_id = list_by_check_id;
  attach_to_check = attach_to_check;
  detach_from_check = detach_from_check;
}
