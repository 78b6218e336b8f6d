-- ===== src/Tests/Attendances.antt =====
-- The theorems on the tables at a lecture with one session and two students.
use wall_e_campus_assistant.Prelude.{◌+◌, ◌*◌, refl, inl, some, ◌∈◌, arith}
use wall_e_campus_assistant.Database.Reference.{reference, sort_by}
use wall_e_campus_assistant.Session.Window.{minute_ms}
use wall_e_campus_assistant.Session.Store.{Db, auto_stale, same_attendance, same_session}
use wall_e_campus_assistant.Session.Repository.{close_if_open}
use wall_e_campus_assistant.Session.Invariant.{IsSound}
use wall_e_campus_assistant.Session.Steps.{
  IsOver, Reach, closed_if_open, one_step, Reach-IsSound, Reach-IsOver, Reach-∈,
}
use wall_e_campus_assistant.Session.Sweep.{run_sweep, sweep_linked, missing_ids}
use wall_e_campus_assistant.Session.Sweep.Laws.{run_sweep-Reach}
use wall_e_campus_assistant.Session.Sweep.Laws.Roll.{
  IsExpected, IsOnRoll, AttendedSibling, missing_ids_iff,
}
use wall_e_campus_assistant.Session.Sweep.Laws.Outcome.{sweep_linked-attendances}
use wall_e_campus_assistant.Tests.{
  nine, running, finished, tables, present_row, lecture, window_config,
}

running-IsSound : IsSound (tables running)
unfolding same_attendance same_session
running-IsSound = record {
  one_row = (refl, tt);
  one_session = (refl, tt);
  referenced = λ a m. (running, inl refl, ground arith);
  absent_closed = λ a m e. absurd (ground arith);
  swept_closed = λ s m n. absurd (ground arith);
}

finished-IsSound : IsSound (tables finished)
unfolding same_attendance same_session
finished-IsSound = record {
  one_row = (refl, tt);
  one_session = (refl, tt);
  referenced = λ a m. (finished, inl refl, ground arith);
  absent_closed = λ a m e. absurd (ground arith);
  swept_closed = λ s m n. absurd (ground arith);
}

abbrev closing : Db
closing = (close_if_open reference 2 (nine + 60 * minute_ms) auto_stale (tables running)).0

stale : Reach reference (tables running) closing
stale = one_step reference (closed_if_open 2 (nine + 60 * minute_ms) refl)

Reach-IsSound_example : IsSound closing
Reach-IsSound_example = Reach-IsSound reference stale running-IsSound

again :
    Reach reference
      (tables finished)
      (close_if_open reference 2 (nine + 90 * minute_ms) auto_stale (tables finished)).0
again = one_step reference (closed_if_open 2 (nine + 90 * minute_ms) refl)

finished-IsOver : IsOver 2 (tables finished)
finished-IsOver = record { known = (finished, inl refl, refl); closed_id = λ s m e. ground arith }

Reach-IsOver_example :
    IsOver 2 (close_if_open reference 2 (nine + 90 * minute_ms) auto_stale (tables finished)).0
Reach-IsOver_example = Reach-IsOver reference again finished-IsSound 2 finished-IsOver

Reach-∈_example : present_row ∈ closing.attendances
Reach-∈_example = Reach-∈ reference stale running-IsSound present_row (inl refl)

run_sweep-Reach_example :
    Reach reference
      (tables running)
      (run_sweep reference window_config 100 (nine + 80 * minute_ms) (tables running)).0
    × IsSound (run_sweep reference window_config 100 (nine + 80 * minute_ms) (tables running)).0
run_sweep-Reach_example =
    run_sweep-Reach reference window_config 100 (nine + 80 * minute_ms) (tables running)
      running-IsSound

missing_ids_iff_example :
    IsExpected reference 31 finished lecture (tables finished)
    × ¬ IsOnRoll 31 2 (tables finished)
    × ¬ AttendedSibling 31 finished (tables finished)
unfolding missing_ids sort_by
missing_ids_iff_example =
    (missing_ids_iff reference finished lecture (tables finished) 31).0 (inl refl)

sweep_linked-attendances_example :
    IsOnRoll 31 2
      (sweep_linked reference finished (some lecture) (nine + 80 * minute_ms) (tables finished)).0
unfolding missing_ids sort_by
sweep_linked-attendances_example =
    (sweep_linked-attendances reference finished lecture (nine + 80 * minute_ms) (tables finished)
        refl).1
      31 (inl refl)
