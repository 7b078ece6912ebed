-- ===== src/Catalog/Availability.antt =====
-- application/engines/catalog/availability.ts: windows of days and clock times. The time zones of
-- `Intl.DateTimeFormat` are a parameter: the parts of a time in a zone, each a type and a value, or
-- `none` when the zone is unknown. The hour and the minute are decimal digits there.
pub mod Windows
use alpha_shadow.Prelude.{
  ℕ, ◌+◌, ◌*◌, Bool, true, false, not, ◌&&◌, ◌||◌, ltb, leb, ◌==◌, any, if◌then◌else◌, Option, none,
  some, Num, int, non_integer, ℤ, pos, eqb_ℤ, List, [], ◌∷◌, Text, text_eq, ◌===◌, codes, Result,
  ok, err, ◌>>=◌, ◌>>◌, guard, validation,
}
use alpha_shadow.Prelude.Strings.{is_blank}
use alpha_shadow.Prelude.Assoc.{get}
use alpha_shadow.Prelude.Transactions.{some_or}
use alpha_shadow.Prelude.Json.{
  Json, null_value, number, string, array, object, JsonItems, no_items, item, JsonFields, get_field,
}
use alpha_shadow.Money.Decimal.{is_digit, digits_value}

pub record AvailabilityWindow : Type 0 where
  pub days_of_week : Option (List Num)
  pub start : Option Text
  pub end : Option Text

pub record AvailabilitySchedule : Type 0 where
  pub time_zone : Option Text
  pub windows : Option (List AvailabilityWindow)

-- Two digits of a clock time.
abbrev pub two_digits : ℕ → ℕ → Option ℕ
two_digits a b = if is_digit a && is_digit b then some (digits_value 0 (a ∷ b ∷ [])) else none

pub record ClockParts : Type 0 where
  pub hour : ℕ
  pub minute : ℕ
  pub second : ℕ

abbrev pub parts_of : Option ℕ → Option ℕ → Option ℕ → Option ClockParts
parts_of (some hour) (some minute) (some second) =
    some (record { hour = hour; minute = minute; second = second })
parts_of _ _ _ = none

-- `TIME_PATTERN`: HH:MM or HH:MM:SS, where `:` has code 58.
abbrev pub match_time : Text → Option ClockParts
match_time (a ∷ b ∷ colon ∷ c ∷ d ∷ []) =
    if colon == 58 then parts_of (two_digits a b) (two_digits c d) (some 0) else none
match_time (a ∷ b ∷ colon ∷ c ∷ d ∷ point ∷ e ∷ f ∷ []) =
    if (colon == 58) && (point == 58)
    then parts_of (two_digits a b) (two_digits c d) (two_digits e f)
    else none
match_time _ = none

unfoldable pub parse_clock_to_minutes : Text → Result ℕ
parse_clock_to_minutes value = do
  parts ← some_or validation (match_time value)
  guard (leb parts.hour 23 && leb parts.minute 59 && leb parts.second 59) validation
  ok (parts.hour * 60 + parts.minute)

pub record ZonedClock : Type 0 where
  pub weekday : ℕ
  pub minutes : ℕ

abbrev pub weekday_names : List (Text × ℕ)
weekday_names =
    (codes "Sun", 0)
    ∷ (codes "Mon", 1)
    ∷ (codes "Tue", 2)
    ∷ (codes "Wed", 3)
    ∷ (codes "Thu", 4)
    ∷ (codes "Fri", 5)
    ∷ (codes "Sat", 6)
    ∷ []

unfoldable pub weekday_index_from_parts : List (Text × Text) → Result ℕ
weekday_index_from_parts parts = do
  name ← some_or validation (get (codes "weekday") parts)
  some_or validation (get name weekday_names)

unfoldable pub minutes_from_parts : List (Text × Text) → Result ℕ
minutes_from_parts parts = do
  hour ← some_or validation (get (codes "hour") parts)
  minute ← some_or validation (get (codes "minute") parts)
  ok (digits_value 0 hour * 60 + digits_value 0 minute)

-- `days === undefined`, an empty list, or a list with the weekday.
abbrev pub is_day : ℕ → Num → Bool
is_day weekday (int n) = eqb_ℤ n (pos weekday)
is_day weekday non_integer = false

abbrev pub on_day : Option (List Num) → ℕ → Bool
on_day none weekday = true
on_day (some []) weekday = true
on_day (some (day ∷ days)) weekday = any (is_day weekday) (day ∷ days)

-- The minutes of a window from `start` to `end`, which may lie over midnight.
unfoldable pub in_window : ℕ → ℕ → ℕ → Bool
in_window start end minutes =
    if leb start end
    then leb start minutes && ltb minutes end
    else leb start minutes || ltb minutes end

abbrev pub clock_or : ℕ → Option Text → Result ℕ
clock_or default none = ok default
clock_or default (some text) = parse_clock_to_minutes text

abbrev pub in_times : Option Text → Option Text → ℕ → Result Bool
in_times none none minutes = ok true
in_times start end minutes = do
  from ← clock_or 0 start
  to ← clock_or (24 * 60) end
  ok (in_window from to minutes)

unfoldable pub window_matches : AvailabilityWindow → ZonedClock → Result Bool
window_matches window clock =
    if on_day window.days_of_week clock.weekday
    then in_times window.start window.end clock.minutes
    else ok false

-- `windows.some`, which stops at the first window that matches or throws.
abbrev pub some_window : List AvailabilityWindow → ZonedClock → Result Bool
some_window [] clock = ok false
some_window (window ∷ rest) clock =
    next_window (window_matches window clock) (some_window rest clock)
  where
    next_window : Result Bool → Result Bool → Result Bool
    next_window (err e) later = err e
    next_window (ok true) later = ok true
    next_window (ok false) later = later

module _ (format_to_parts : ℕ → Text → Option (List (Text × Text))) where
  unfoldable pub zoned_clock : ℕ → Text → Result ZonedClock
  zoned_clock time time_zone = do
    parts ← some_or validation (format_to_parts time time_zone)
    weekday ← weekday_index_from_parts parts
    minutes ← minutes_from_parts parts
    ok (record { weekday = weekday; minutes = minutes })

  abbrev pub zone_or : Option Text → Text → Text
  zone_or none fallback = fallback
  zone_or (some own) fallback = own

  abbrev pub within_windows :
      Option (List AvailabilityWindow) → Option Text → ℕ → Text → Result Bool
  within_windows none own time fallback = ok true
  within_windows (some []) own time fallback = ok true
  within_windows (some (window ∷ rest)) own time fallback = do
    clock ← zoned_clock time (zone_or own fallback)
    some_window (window ∷ rest) clock

  unfoldable pub is_within_availability_schedule :
      Option AvailabilitySchedule → ℕ → Text → Result Bool
  is_within_availability_schedule none time fallback = ok true
  is_within_availability_schedule (some schedule) time fallback =
      within_windows schedule.windows schedule.time_zone time fallback
