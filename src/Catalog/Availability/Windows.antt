-- ===== src/Catalog/Availability/Windows.antt =====
-- Clock times and the windows between them.
use alpha_shadow.Prelude.{
  ℕ, ◌+◌, ◌-◌, ◌*◌, ◌%◌, ◌<◌, ◌≡◌, ◌↔◌, ap, true, ◌&&◌, leb, arith, some, Text, ok, guard,
  guard-eq-ok, >>=-eq-ok, ok-injective, validation,
}
use alpha_shadow.Prelude.Transactions.{some_or}
use alpha_shadow.Catalog.Availability.{
  match_time, parse_clock_to_minutes, in_window, in_times, AvailabilityWindow, ZonedClock, on_day,
  window_matches,
}

clock_bound :
    (hour minute second : ℕ)
    → (leb hour 23 && leb minute 59 && leb second 59) ≡ true
    → hour * 60 + minute < 1440
clock_bound hour minute second h = ground arith

-- A clock time that is accepted lies within the 1440 minutes of a day.
pub parse_clock_to_minutes-bounded :
    (value : Text) {minutes : ℕ} → parse_clock_to_minutes value ≡ ok minutes → minutes < 1440
unfolding parse_clock_to_minutes
parse_clock_to_minutes-bounded value h =
    let (parts, _, h1) = >>=-eq-ok (some_or validation (match_time value)) _ h in
    let (_, passed, h2) =
      >>=-eq-ok (guard (leb parts.hour 23 && leb parts.minute 59 && leb parts.second 59) validation)
        _ h1 in
    rw (← ok-injective h2)
      (clock_bound parts.hour parts.minute parts.second (guard-eq-ok _ validation passed))

in_window_iff :
    (start end minutes : ℕ)
    → start < 1440
    → end < 1440
    → minutes < 1440
    → (in_window start end minutes ≡ true)
      ↔ ((minutes + 1440 - start) % 1440 < (end + 1440 - start) % 1440)
unfolding in_window
in_window_iff start end minutes s e m = ground arith

in_times-cyclic :
    (start_text end_text : Text) (minutes : ℕ) {start end : ℕ}
    → parse_clock_to_minutes start_text ≡ ok start
    → parse_clock_to_minutes end_text ≡ ok end
    → minutes < 1440
    → (in_times (some start_text) (some end_text) minutes ≡ ok true)
      ↔ ((minutes + 1440 - start) % 1440 < (end + 1440 - start) % 1440)
in_times-cyclic start_text end_text minutes {start} {end} s e m =
    let (cyclic, back) =
      in_window_iff start end minutes (parse_clock_to_minutes-bounded start_text s)
        (parse_clock_to_minutes-bounded end_text e) m in
    rw (s, e) ((λ h. cyclic (ok-injective h)), (λ h. ap ok (back h)))

-- A window between two clock times, over midnight or not, matches a time on one of its days exactly
-- when the minutes from its start to that time, around the clock, are fewer than those to its end.
pub window_matches-cyclic :
    (window : AvailabilityWindow) (clock : ZonedClock) (start_text end_text : Text) {start end : ℕ}
    → window.start ≡ some start_text
    → window.end ≡ some end_text
    → parse_clock_to_minutes start_text ≡ ok start
    → parse_clock_to_minutes end_text ≡ ok end
    → on_day window.days_of_week clock.weekday ≡ true
    → clock.minutes < 1440
    → (window_matches window clock ≡ ok true)
      ↔ ((clock.minutes + 1440 - start) % 1440 < (end + 1440 - start) % 1440)
unfolding window_matches
window_matches-cyclic window clock start_text end_text is_start is_end s e day m =
    rw (day, is_start, is_end) (in_times-cyclic start_text end_text clock.minutes s e m)
