-- ===== src/Catalog/Schedules.antt =====
-- application/engines/catalog/availability.ts: `parseAvailabilitySchedule`, which reads a schedule
-- from a JSON column.
use alpha_shadow.Prelude.{
  Option, none, some, Num, int, List, [], ◌∷◌, Text, codes, Result, ok, err, ◌>>=◌, validation,
  if◌then◌else◌,
}
use alpha_shadow.Prelude.Strings.{is_blank}
use alpha_shadow.Prelude.Json.{
  Json, null_value, number, string, array, object, JsonItems, no_items, item, get_field,
}
use alpha_shadow.Catalog.Availability.{AvailabilityWindow, AvailabilitySchedule}

abbrev pub string_or_undefined : Option Json → Result (Option Text)
string_or_undefined none = ok none
string_or_undefined (some (string text)) = ok (some text)
string_or_undefined (some _) = err validation

-- The time zone, which is not blank.
abbrev pub time_zone_of : Option Json → Result (Option Text)
time_zone_of none = ok none
time_zone_of (some (string text)) = if is_blank text then err validation else ok (some text)
time_zone_of (some _) = err validation

abbrev pub integers_of : JsonItems → Result (List Num)
integers_of no_items = ok []
integers_of (item (number (int n)) rest) = do later ← integers_of rest; ok (int n ∷ later)
integers_of (item _ rest) = err validation

abbrev pub days_of : Option Json → Result (Option (List Num))
days_of none = ok none
days_of (some (array items)) = do days ← integers_of items; ok (some days)
days_of (some _) = err validation

abbrev pub window_of : Json → Result AvailabilityWindow
window_of (object entries) = do
  days ← days_of (get_field (codes "daysOfWeek") entries)
  start ← string_or_undefined (get_field (codes "start") entries)
  end ← string_or_undefined (get_field (codes "end") entries)
  ok (record { days_of_week = days; start = start; end = end })
window_of _ = err validation

abbrev pub windows_from : JsonItems → Result (List AvailabilityWindow)
windows_from no_items = ok []
windows_from (item value rest) = do
  window ← window_of value
  later ← windows_from rest
  ok (window ∷ later)

abbrev pub windows_of : Option Json → Result (Option (List AvailabilityWindow))
windows_of none = ok none
windows_of (some (array items)) = do windows ← windows_from items; ok (some windows)
windows_of (some _) = err validation

-- A missing or null schedule is none.
unfoldable pub parse_availability_schedule : Option Json → Result (Option AvailabilitySchedule)
parse_availability_schedule none = ok none
parse_availability_schedule (some null_value) = ok none
parse_availability_schedule (some (object entries)) = do
  time_zone ← time_zone_of (get_field (codes "timeZone") entries)
  windows ← windows_of (get_field (codes "windows") entries)
  ok (some (record { time_zone = time_zone; windows = windows }))
parse_availability_schedule (some _) = err validation
