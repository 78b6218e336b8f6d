-- ===== src/Occurrence.antt =====
-- backend/src/utils/occurrence.util.ts: the instants at which a weekly slot of the timetable is held.
-- What Intl.DateTimeFormat shows is a parameter. A date is the milliseconds from 1970 on to its
-- midnight, so that Date.UTC after getUTCFullYear, getUTCMonth and getUTCDate is that number again,
-- and a difference is taken with its terms moved so that no side is negative.
pub mod Zones
pub mod Laws
pub mod Next
pub mod Digits
use wall_e_campus_assistant.Prelude.{
  ℕ, zero, suc, ◌+◌, ◌-◌, ◌*◌, ◌/◌, ◌%◌, Bool, true, false, ◌&&◌, Option, none, some, List, [], ◌∷◌,
  ◌++◌, ltb, leb, ◌==◌, if◌then◌else◌,
}
use wall_e_campus_assistant.Text.{Text, is_digit}
use wall_e_campus_assistant.Cohort.Semester.{codes}
use wall_e_campus_assistant.Session.Store.{DayOfWeek}
use wall_e_campus_assistant.Timetable.{day_index}

abbrev pub day_ms : ℕ
day_ms = 86400000

-- A time zone: what its clock reads at an instant, as the instant at which a clock in UTC reads the
-- same, and the name of the day.
pub record TimeZone : Type 0 where
  pub reading : ℕ → ℕ
  pub weekday_name : ℕ → Text

-- naive - offsetAt(instant)
abbrev pub less_offset : TimeZone → ℕ → ℕ → ℕ
less_offset zone naive instant = (naive + instant) - zone.reading instant

unfoldable pub zoned_time_to_utc : TimeZone → ℕ → ℕ
zoned_time_to_utc zone naive = less_offset zone naive (less_offset zone naive naive)

-- value.split(":"), the first two parts; a part that is missing is "0".
unfoldable pub first_part : Text → Text
first_part [] = []
first_part (c ∷ s) = let rest = first_part s in if c == b':' then [] else c ∷ rest

unfoldable pub other_parts : Text → Option Text
other_parts [] = none
other_parts (c ∷ s) = let rest = other_parts s in if c == b':' then some s else rest

-- Number(…) of a text that is empty or of digits only; no other text is a part of a clock time that
-- the schedule's schema has let through.
unfoldable pub number_from : ℕ → Text → Option ℕ
unfolding is_digit
number_from n [] = some n
number_from n (c ∷ s) = if is_digit c then number_from (n * 10 + (c - b'0')) s else none

abbrev pub clock_ms : Option ℕ → Option ℕ → Option ℕ
clock_ms (some hour) (some minute) = some (hour * 3600000 + minute * 60000)
clock_ms (some hour) none = none
clock_ms none minute = none

abbrev pub minute_part : Option Text → Text
minute_part none = codes "0"
minute_part (some rest) = first_part rest

-- The milliseconds from midnight on.
unfoldable pub parse_clock : Text → Option ℕ
unfolding first_part other_parts number_from
parse_clock value =
    clock_ms (number_from 0 (first_part value)) (number_from 0 (minute_part (other_parts value)))

pub record RecurringSlot : Type 0 where
  pub day_of_week : DayOfWeek
  pub start_time : Text

-- getUTCDay() of a midnight.
abbrev pub utc_day : ℕ → ℕ
utc_day day = (day + 4) % 7

-- The loop, for the days that are left, from a day on.
unfoldable pub walk_days : TimeZone → ℕ → ℕ → ℕ → ℕ → ℕ → ℕ → List ℕ
walk_days zone wanted clock from until zero day = []
walk_days zone wanted clock from until (suc left) day =
    let rest = walk_days zone wanted clock from until left (day + 1) in
    let time = zoned_time_to_utc zone (day * day_ms + clock) in
    if utc_day day == wanted && ltb from time && leb time until then time ∷ rest else rest

-- Math.ceil(horizonMs / DAY_MS) + 2, and one for the end that is included.
abbrev pub days_walked : ℕ → ℕ
days_walked horizon_ms = (horizon_ms + (day_ms - 1)) / day_ms + 3

-- With a clock that is not a number no comparison holds.
abbrev pub occurrences_at : TimeZone → ℕ → Option ℕ → ℕ → ℕ → List ℕ
occurrences_at zone wanted none from horizon_ms = []
occurrences_at zone wanted (some clock) from horizon_ms =
    walk_days zone wanted clock from (from + horizon_ms) (days_walked horizon_ms)
      (zone.reading from / day_ms)

unfoldable pub occurrences_between : RecurringSlot → ℕ → ℕ → TimeZone → List ℕ
unfolding walk_days parse_clock
occurrences_between slot from horizon_ms zone =
    if horizon_ms == 0
    then []
    else occurrences_at zone (day_index slot.day_of_week) (parse_clock slot.start_time) from
        horizon_ms

abbrev pub first_of : List ℕ → Option ℕ
first_of [] = none
first_of (x ∷ l) = some x

unfoldable pub next_occurrence : RecurringSlot → ℕ → TimeZone → Option ℕ
unfolding occurrences_between
next_occurrence slot from zone = first_of (occurrences_between slot from (8 * day_ms) zone)

-- `${n}`, with one step for each digit; a number has no more digits than its value and one.
unfoldable pub decimal_in : ℕ → ℕ → Text
decimal_in zero n = []
decimal_in (suc steps) n =
    let before = decimal_in steps (n / 10) in
    if ltb n 10 then (b'0' + n) ∷ [] else before ++ (b'0' + n % 10) ∷ []

unfoldable pub decimal : ℕ → Text
unfolding decimal_in
decimal n = decimal_in (n + 1) n

-- padStart(2, "0")
unfoldable pub two_digits : ℕ → Text
unfolding decimal
two_digits n = if ltb n 10 then b'0' ∷ decimal n else decimal n

abbrev pub clock_text : ℕ → ℕ → Text
clock_text hour minute =
    decimal (if hour % 12 == 0 then 12 else hour % 12)
    ++ codes ":"
    ++ two_digits minute
    ++ (if ltb hour 12 then codes " AM" else codes " PM")

unfoldable pub format_clock : ℕ → TimeZone → Text
unfolding decimal two_digits
format_clock date zone =
    clock_text (zone.reading date % day_ms / 3600000) (zone.reading date % 3600000 / 60000)

-- calendarDaysBetween where the second date is not before the first.
unfoldable pub calendar_days_between : ℕ → ℕ → TimeZone → ℕ
calendar_days_between from to zone = zone.reading to / day_ms - zone.reading from / day_ms
