-- ===== src/Handler/Dashboard.antt =====
-- internal/handler/dashboard.go: the data that the list of checks shows. The templates are left
-- out.
pub mod Listing
pub mod Squares
pub mod Detail
use cron_mon.Base.{
  ℕ, ◌+◌, Bool, true, false, ◌||◌, not, Option, none, some, List, [], ◌∷◌, ◌++◌, map, leb, ltb,
  ◌==◌, if◌then◌else◌,
}
use cron_mon.Base.Sorting.{sort_by}
use cron_mon.Base.Order.{text_ltb, text_leb}
use cron_mon.Base.Text.{Text, text_eq, is_empty, quoted, split, trim_space}
use cron_mon.Time.{Time}
use cron_mon.Model.{Check, Status, new, up, down, paused, other}
use cron_mon.Table.{lookup}
use cron_mon.Cache.{StateCache, snapshot}
use cron_mon.Http.{Request}

-- pingURL
abbrev pub ping_url : Text → Text → Text
ping_url base_url id = base_url ++ quoted "/ping/" ++ id

-- statusOrder
abbrev pub status_order : Status → ℕ
status_order down = 0
status_order up = 1
status_order new = 2
status_order paused = 3
status_order (other s) = 4

-- The trimmed parts that are not empty.
trimmed : List Text → List Text
trimmed [] = []
trimmed (p ∷ ps) =
    let t = trim_space p in let rest = trimmed ps in if is_empty t then rest else t ∷ rest

-- splitTags
unfoldable pub split_tags : Text → List Text
unfolding trimmed split trim_space
split_tags s = if is_empty s then [] else trimmed (split b',' s)

unfoldable pub has_tag : Text → List Text → Bool
has_tag tag [] = false
has_tag tag (t ∷ ts) = text_eq t tag || has_tag tag ts

-- containsTag
unfoldable pub contains_tag : Text → Text → Bool
unfolding has_tag split_tags
contains_tag tags tag = has_tag tag (split_tags tags)

-- Whether the loop that applies the filter keeps a check.
unfoldable pub passes : Text → Check → Bool
unfolding contains_tag
passes tag c = is_empty tag || contains_tag c.tags tag

unfoldable pub filtered : Text → List Check → List Check
unfolding passes
filtered tag [] = []
filtered tag (c ∷ cs) = let rest = filtered tag cs in if passes tag c then c ∷ rest else rest

-- sort.Slice is not stable; this is one of the orders that it may leave.
abbrev pub by_status : Check → Check → Bool
by_status a b = leb (status_order a.status) (status_order b.status)

pub record CheckRow : Type 0 where
  pub id : Text
  pub name : Text
  pub status : Status
  pub schedule : Text
  pub last_ping_at : Option Time
  pub next_expected_at : Option Time
  pub tag_list : List Text
  pub ping_url : Text

check_row : Text → Check → CheckRow
check_row base_url c = record {
  id = c.id;
  name = c.name;
  status = c.status;
  schedule = c.schedule;
  last_ping_at = c.last_ping_at;
  next_expected_at = c.next_expected_at;
  tag_list = split_tags c.tags;
  ping_url = ping_url base_url c.id;
}

-- The checks that the page lists, in their order.
unfoldable pub listed : Text → List Check → List Check
unfolding sort_by filtered
listed tag cs = sort_by by_status (filtered tag cs)

-- The keys of the map tagSet, in one of the orders in which Go may range over it.
add_tags : List Text → List Text → List Text
unfolding has_tag
add_tags [] tags = tags
add_tags (t ∷ ts) tags = let rest = add_tags ts tags in if has_tag t rest then rest else t ∷ rest

tag_set : List Check → List Text
unfolding add_tags split_tags
tag_set [] = []
tag_set (c ∷ cs) = add_tags (split_tags c.tags) (tag_set cs)

-- The tags of the filter bar; sort.Strings fixes their order.
unfoldable pub all_tags : List Check → List Text
unfolding tag_set sort_by text_ltb
all_tags cs = sort_by text_leb (tag_set cs)

pub record DashboardData : Type 0 where
  pub tag : Text
  pub all_tags : List Text
  pub checks : List CheckRow

tag_of : Option Text → Text
tag_of none = []
tag_of (some tag) = tag

-- HandleCheckList: the data of the page, for the ?tag= of the request.
unfoldable pub handle_check_list : {Db : Type 0} → Text → Request → StateCache Db → DashboardData
unfolding check_row listed tag_of lookup
handle_check_list base_url r sc =
    let tag = tag_of (lookup (quoted "tag") r.query) in
    let checks = snapshot sc in
    record {
      tag = tag;
      all_tags = all_tags checks;
      checks = map (check_row base_url) (listed tag checks);
    }
