-- ===== src/Session/Window.antt =====
-- backend/src/utils/session-window.ts. An instant is its getTime(), in milliseconds from 1970 on;
-- a difference of two instants is compared with its terms moved so that no side is negative.
-- A schedule's clock times are texts.
pub mod States
pub mod Occurrences
use wall_e_campus_assistant.Prelude.{
  ℕ, ◌+◌, ◌-◌, ◌*◌, Bool, true, false, ◌&&◌, ◌||◌, List, [], ◌∷◌, Option, none, some, ltb, leb,
  ◌==◌, if◌then◌else◌,
}
use wall_e_campus_assistant.Text.{Text, trim, is_digit}

abbrev pub minute_ms : ℕ
minute_ms = 60000

-- The check of the two numbers that the pattern found.
unfoldable pub clock_of : ℕ → ℕ → Option ℕ
clock_of hour minute = if ltb 23 hour || ltb 59 minute then none else some (hour * 60 + minute)

abbrev digit_value : ℕ → ℕ
digit_value c = c - b'0'

-- /^(\d{1,2}):(\d{2})$/ on a trimmed text.
unfoldable pub match_clock : Text → Option ℕ
unfolding clock_of is_digit
match_clock (a ∷ c ∷ m ∷ n ∷ []) =
    if is_digit a && c == b':' && is_digit m && is_digit n
    then clock_of (digit_value a) (digit_value m * 10 + digit_value n)
    else none
match_clock (a ∷ b ∷ c ∷ m ∷ n ∷ []) =
    if is_digit a && is_digit b && c == b':' && is_digit m && is_digit n
    then clock_of (digit_value a * 10 + digit_value b) (digit_value m * 10 + digit_value n)
    else none
match_clock _ = none

unfoldable pub clock_minutes : Text → Option ℕ
unfolding match_clock trim
clock_minutes value = match_clock (trim value)

-- The clock times of a LectureSchedule.
pub record LectureTimes : Type 0 where
  pub start_time : Text
  pub end_time : Text

unfoldable pub duration_between : Option ℕ → Option ℕ → ℕ → ℕ
duration_between (some start) (some end) default_minutes =
    if leb end start then default_minutes else end - start
duration_between (some start) none default_minutes = default_minutes
duration_between none end default_minutes = default_minutes

unfoldable pub lecture_duration_minutes : Option LectureTimes → ℕ → ℕ
unfolding duration_between
lecture_duration_minutes none default_minutes = default_minutes
lecture_duration_minutes (some schedule) default_minutes =
    duration_between (clock_minutes schedule.start_time) (clock_minutes schedule.end_time)
      default_minutes

pub data SessionStatus : Type 0 where
  active closed : SessionStatus

-- What the functions below read of a session.
pub record SessionWindowInput : Type 0 where
  pub status : SessionStatus
  pub start_time : ℕ
  pub lecture_schedule : Option LectureTimes

pub record SessionWindowConfig : Type 0 where
  pub default_session_minutes : ℕ
  pub stale_grace_minutes : ℕ

pub record SessionWindow : Type 0 where
  pub ends_at : ℕ
  pub stale_at : ℕ

unfoldable pub session_window : SessionWindowInput → SessionWindowConfig → SessionWindow
session_window session config =
    let minutes =
      lecture_duration_minutes session.lecture_schedule config.default_session_minutes in
    let ends_at = session.start_time + minutes * minute_ms in
    record { ends_at = ends_at; stale_at = ends_at + config.stale_grace_minutes * minute_ms }

pub data SessionLifecycleState : Type 0 where
  upcoming in_progress pending recorded : SessionLifecycleState

abbrev pub is_closed : SessionStatus → Bool
is_closed closed = true
is_closed active = false

unfoldable pub session_state : SessionWindowInput → ℕ → SessionWindowConfig → SessionLifecycleState
unfolding session_window
session_state session now config =
    if is_closed session.status
    then recorded
    else if ltb now session.start_time
    then upcoming
    else if ltb (session_window session config).ends_at now
    then pending
    else in_progress

abbrev pub is_in_progress : SessionLifecycleState → Bool
is_in_progress in_progress = true
is_in_progress _ = false

unfoldable pub is_scannable : SessionWindowInput → ℕ → SessionWindowConfig → Bool
unfolding session_state
is_scannable session now config = is_in_progress (session_state session now config)

abbrev pub is_active : SessionStatus → Bool
is_active active = true
is_active closed = false

unfoldable pub is_stale : SessionWindowInput → ℕ → SessionWindowConfig → Bool
unfolding session_window
is_stale session now config =
    is_active session.status && ltb (session_window session config).stale_at now

abbrev pub occurrence_open_early_ms : ℕ
occurrence_open_early_ms = 60 * minute_ms

abbrev pub occurrence_open_late_ms : ℕ
occurrence_open_late_ms = 12 * 60 * minute_ms

unfoldable pub belongs_to_occurrence : ℕ → ℕ → Bool
belongs_to_occurrence start_time occurrence_starts_at =
    leb occurrence_starts_at (start_time + occurrence_open_early_ms)
    && ltb start_time (occurrence_starts_at + occurrence_open_late_ms)

pub record InstantRange : Type 0 where
  pub from : ℕ
  pub to : ℕ

-- A lower end before 1970 is put at 1970, where it selects the same instants.
unfoldable pub same_occurrence_window : ℕ → InstantRange
same_occurrence_window anchor = record {
  from = anchor - occurrence_open_late_ms;
  to = anchor + occurrence_open_late_ms;
}

pub data AttendanceStatus : Type 0 where
  present late absent : AttendanceStatus

-- The difference of the instants is above the threshold only if it is positive.
unfoldable pub punctuality : ℕ → ℕ → ℕ → AttendanceStatus
punctuality opened_at scanned_at late_after_minutes =
    if ltb (opened_at + late_after_minutes * minute_ms) scanned_at then late else present
