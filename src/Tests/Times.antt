-- ===== src/Tests/Times.antt =====
-- The theorems on session windows at concrete instants.
use wall_e_campus_assistant.Prelude.{◌≡◌, ◌≤◌, ◌+◌, ◌*◌, refl, true, false, some, arith}
use wall_e_campus_assistant.Session.Window.{
  SessionWindowInput, active, session_state, is_scannable, session_window, lecture_duration_minutes,
  belongs_to_occurrence, same_occurrence_window, minute_ms, clock_minutes,
}
use wall_e_campus_assistant.Session.Window.States.{rank, session_state_monotone, is_scannable_iff}
use wall_e_campus_assistant.Session.Window.Occurrences.{
  in_range, week_ms, same_occurrence_window_sound, same_occurrence_window_gap,
}
use wall_e_campus_assistant.Tests.{nine, lecture_times, window_config}

abbrev at_nine : SessionWindowInput
at_nine = record { status = active; start_time = nine; lecture_schedule = some lecture_times }

session_state_monotone_example :
    rank (session_state at_nine nine window_config)
    ≤ rank (session_state at_nine (nine + 61 * minute_ms) window_config)
session_state_monotone_example =
    session_state_monotone at_nine window_config nine (nine + 61 * minute_ms) (omega arith)

is_scannable_iff_example : nine + 60 * minute_ms ≤ (session_window at_nine window_config).ends_at
unfolding is_scannable session_state lecture_duration_minutes clock_minutes
is_scannable_iff_example =
    ((is_scannable_iff at_nine window_config (nine + 60 * minute_ms)).0 refl).2

same_occurrence_window_sound_example :
    (in_range (same_occurrence_window nine) (nine + week_ms) ≡ false)
    × (in_range (same_occurrence_window (nine + week_ms)) nine ≡ false)
unfolding belongs_to_occurrence
same_occurrence_window_sound_example =
    same_occurrence_window_sound nine (nine + week_ms) nine (nine + week_ms) (omega arith) refl refl

same_occurrence_window_gap_example :
    (belongs_to_occurrence nine (nine + 60 * minute_ms) ≡ true)
    × (belongs_to_occurrence (nine + 721 * minute_ms) (nine + 60 * minute_ms) ≡ true)
    × (in_range (same_occurrence_window nine) (nine + 721 * minute_ms) ≡ false)
    × (in_range (same_occurrence_window (nine + 721 * minute_ms)) nine ≡ false)
same_occurrence_window_gap_example =
    same_occurrence_window_gap (nine + 60 * minute_ms) nine (nine + 721 * minute_ms) (omega arith)
      (omega arith) (omega arith)
