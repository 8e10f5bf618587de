-- ===== src/Broker/Reboots.antt =====
-- The reboots of a year, from unyport/backend/sse/broker.go: RebootsHandler and what it reads. The
-- decoding of JSON, the pattern of the log, the parsing of times and the calendar are parameters.
pub mod Laws
pub mod Reply
use unyport.Common.{
  ℕ, zero, suc, ◌+◌, ◌%◌, String, Bool, true, false, not, ◌&&◌, ◌||◌, Option, none, some, List, [],
  ◌∷◌, ◌==◌, ltb, nat_eq, length, if◌then◌else◌,
}
use unyport.Common.Text.{trim_space}
use unyport.Common.Dict.{Dict, lookup, insert, listed}

-- startupHistoryRecord, less the theme
pub record StartupHistoryRecord : Type 0 where
  pub timestamp : String
  pub event : String
  pub boot_id : String
  pub rebooted_at : String

-- The reboots by day, and the boots that were counted.
pub record History : Type 0 where
  pub counts : Dict ℕ
  pub boot_ids : List String
  pub reboot_times : List String

-- A missing entry of a map of numbers is 0.
abbrev pub or_zero : Option ℕ → ℕ
or_zero none = 0
or_zero (some n) = n

-- The year and the day of an instant in the zone of the host, where it parses.
abbrev pub count_day : ℕ → Option (ℕ × String) → Dict ℕ → Dict ℕ
count_day year none counts = counts
count_day year (some (y, day)) counts =
    if nat_eq y year then insert day (or_zero (lookup day counts) + 1) counts else counts

module _ (day_of : String → Option (ℕ × String)) (year : ℕ) where
  abbrev pub counted : StartupHistoryRecord → History → History
  counted r h = record h {
    counts =
        count_day year (day_of (if r.rebooted_at == "" then r.timestamp else r.rebooted_at))
          h.counts;
  }

  unfoldable pub count_record : StartupHistoryRecord → History → History
  count_record r h =
      if not (r.event == "startup") || (r.timestamp == "" && r.rebooted_at == "")
      then h
      else if not (r.boot_id == "")
      then if listed r.boot_id h.boot_ids
        then h
        else counted r (record h { boot_ids = r.boot_id ∷ h.boot_ids })
      else if not (r.rebooted_at == "")
      then if listed r.rebooted_at h.reboot_times
        then h
        else counted r (record h { reboot_times = r.rebooted_at ∷ h.reboot_times })
      else counted r h

  abbrev pub count_decoded : Option StartupHistoryRecord → History → History
  count_decoded none h = h
  count_decoded (some r) h = count_record r h

  -- The loop over the lines of the file.
  unfoldable pub count_lines :
      (String → Option StartupHistoryRecord) → List String → History → History
  unfolding count_record
  count_lines decode [] h = h
  count_lines decode (l ∷ ls) h =
      count_lines decode ls
        (if trim_space l == "" then h else count_decoded (decode (trim_space l)) h)

  -- parseStartupHistoryByDay, on a file that is read to its end
  unfoldable pub parse_startup_history_by_day :
      (String → Option StartupHistoryRecord) → List String → Dict ℕ
  unfolding count_lines
  parse_startup_history_by_day decode ls =
      (count_lines decode ls (record { counts = []; boot_ids = []; reboot_times = [] })).counts

  abbrev count_match : Option String → Dict ℕ → Dict ℕ
  count_match none counts = counts
  count_match (some time) counts = count_day year (day_of time) counts

  -- parseStartupRebootsByDay over counts so far; `matching` gives the first group of
  -- startupLogPattern
  unfoldable pub parse_startup_reboots_by_day :
      (String → Option String) → List String → Dict ℕ → Dict ℕ
  parse_startup_reboots_by_day matching [] counts = counts
  parse_startup_reboots_by_day matching (l ∷ ls) counts =
      parse_startup_reboots_by_day matching ls (count_match (matching l) counts)

-- rebootHeatmapLevel
unfoldable pub reboot_heatmap_level : ℕ → ℕ
reboot_heatmap_level zero = 0
reboot_heatmap_level (suc zero) = 1
reboot_heatmap_level (suc (suc zero)) = 2
reboot_heatmap_level (suc (suc (suc n))) = 3

-- isLeapYear
unfoldable pub is_leap_year : ℕ → Bool
is_leap_year year =
    if nat_eq (year % 400) 0
    then true
    else if nat_eq (year % 100) 0
    then false
    else nat_eq (year % 4) 0

pub record RebootHeatmapCell : Type 0 where
  pub date : String
  pub count : ℕ
  pub level : ℕ
  pub label : String

pub record RebootHeatmap : Type 0 where
  pub year : ℕ
  pub total_reboots : ℕ
  pub max_per_day : ℕ
  pub lead_blank : ℕ
  pub days : List RebootHeatmapCell

-- What package time says of a year: the date and the label of its i-th day, and the weekday of
-- the first, Sunday being 0.
pub record Calendar : Type 0 where
  pub date : ℕ → ℕ → String
  pub label : ℕ → ℕ → String
  pub weekday : ℕ → ℕ

abbrev pub larger : ℕ → ℕ → ℕ
larger m n = if ltb m n then n else m

module _ (cal : Calendar) (year : ℕ) (counts : Dict ℕ) where
  abbrev pub cell : ℕ → RebootHeatmapCell
  cell i = record {
    date = cal.date year i;
    count = or_zero (lookup (cal.date year i) counts);
    level = reboot_heatmap_level (or_zero (lookup (cal.date year i) counts));
    label = cal.label year i;
  }

  -- The loop: the days i, i + 1, ... up to a number of them, behind what it has so far.
  unfoldable pub fill : ℕ → ℕ → ℕ → ℕ → List RebootHeatmapCell × ℕ × ℕ
  unfolding reboot_heatmap_level
  fill zero i total most = ([], total, most)
  fill (suc n) i total most =
      let c = cell i in
      let (cells, total', most') = fill n (i + 1) (total + c.count) (larger most c.count) in
      (c ∷ cells, total', most')

  -- The reply of RebootsHandler, on the counts that it found.
  unfoldable pub reboots_reply : RebootHeatmap
  unfolding fill is_leap_year
  reboots_reply =
      let (cells, total, most) = fill (if is_leap_year year then 366 else 365) 0 0 0 in
      record {
        year = year;
        total_reboots = total;
        max_per_day = most;
        lead_blank = (cal.weekday year + 6) % 7;
        days = cells;
      }
