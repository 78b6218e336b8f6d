-- ===== src/Session/Sweep.antt =====
-- runSweep of backend/src/services/attendance-lifecycle.service.ts: the stale sessions are closed,
-- and then the roll is called for the closed sessions that await it.
pub mod Laws
use wall_e_campus_assistant.Prelude.{
  ℕ, ◌+◌, Bool, true, false, not, ◌&&◌, ◌||◌, Option, none, some, List, [], ◌∷◌, map, keep, ◌==◌,
  same_option, is_none, if◌then◌else◌, length,
}
use wall_e_campus_assistant.Cohort.{semester_value}
use wall_e_campus_assistant.Cohort.Semester.{parse_semester_number}
use wall_e_campus_assistant.Database.{Prisma}
use wall_e_campus_assistant.Session.Window.{
  SessionWindowConfig, session_window, is_stale, same_occurrence_window,
}
use wall_e_campus_assistant.Session.Store.{
  auto_stale, Session, Attendance, LectureSchedule, Student, Db,
}
use wall_e_campus_assistant.Session.Repository.{
  schedule_of, find_open_for_stale_check, close_if_open, find_closed_awaiting_sweep,
  mark_absences_swept, find_opened_for_schedule_between, find_student_ids_by_session,
  find_attended_student_ids_by_sessions, create_absences, CohortCriteria, find_cohort, in_set,
}
use wall_e_campus_assistant.Session.Service.{window_input}

pub record StaleCloseResult : Type 0 where
  pub examined : ℕ
  pub closed : ℕ

pub record SweepOutcome : Type 0 where
  pub created : ℕ
  pub unlinked : Bool
  pub marked : Bool

pub record AbsenceSweepResult : Type 0 where
  pub examined : ℕ
  pub swept : ℕ
  pub absences_created : ℕ
  pub unlinked : ℕ

abbrev pub one_if : Bool → ℕ
one_if true = 1
one_if false = 0

unfoldable pub cohort_criteria : Session → LectureSchedule → CohortCriteria
cohort_criteria s l = record {
  organization_id = s.organization_id;
  faculty = l.faculty;
  department = l.department;
  level = l.level;
  section = l.section;
}

-- The filter that makes `expected` of the cohort.
unfoldable pub is_expected : Session → LectureSchedule → Student → Bool
unfolding parse_semester_number
is_expected s l p =
    same_option (parse_semester_number (semester_value p.profile.semester)) (some l.semester)
    && p.user_organization_id == s.organization_id

unfoldable pub add_outcome : AbsenceSweepResult → SweepOutcome → AbsenceSweepResult
add_outcome result outcome = record result {
  swept = result.swept + one_if outcome.marked;
  absences_created = result.absences_created + outcome.created;
  unlinked = result.unlinked + one_if outcome.unlinked;
}

module _ (prisma : Prisma) where
  module _ (config : SessionWindowConfig) where
    -- One round of the loop of closeStaleSessions.
    unfoldable pub close_one : Session → ℕ → Db → Db × Bool
    unfolding is_stale session_window schedule_of close_if_open
    close_one s now db =
        let input = window_input s (schedule_of prisma s db) in
        if not (is_stale input now config)
        then (db, false)
        else close_if_open prisma s.id (session_window input config).ends_at auto_stale db

    unfoldable pub close_all : List Session → ℕ → ℕ → Db → Db × ℕ
    unfolding close_one
    close_all [] now closed db = (db, closed)
    close_all (s ∷ rest) now closed db =
        let (db', did_close) = close_one s now db in
        close_all rest now (closed + one_if did_close) db'

    unfoldable pub close_stale_sessions : ℕ → ℕ → Db → Db × StaleCloseResult
    unfolding close_all find_open_for_stale_check
    close_stale_sessions batch_size now db =
        let candidates = find_open_for_stale_check prisma batch_size db in
        let (db', closed) = close_all candidates now 0 db in
        (db', record { examined = length candidates; closed = closed })

  -- attendedElsewhereInOccurrence; the window is around the session's own start.
  unfoldable pub attended_elsewhere : Session → Option ℕ → Db → List ℕ
  unfolding same_occurrence_window find_opened_for_schedule_between
      find_attended_student_ids_by_sessions
  attended_elsewhere s none db = []
  attended_elsewhere s (some schedule) db =
      let window = same_occurrence_window s.start_time in
      let siblings =
        find_opened_for_schedule_between prisma schedule s.organization_id window.from window.to
          db in
      find_attended_student_ids_by_sessions prisma
        (keep (λ id. not (id == s.id)) (map (λ sibling. sibling.id) siblings)) db

  unfoldable pub expected_ids : Session → LectureSchedule → Db → List ℕ
  unfolding is_expected find_cohort cohort_criteria
  expected_ids s l db =
      map (λ p. p.user_id) (keep (is_expected s l) (find_cohort prisma (cohort_criteria s l) db))

  -- `missing`: who was expected, is not on the roll, and attended no sibling.
  unfoldable pub missing_ids : Session → LectureSchedule → Db → List ℕ
  unfolding expected_ids attended_elsewhere find_student_ids_by_session
  missing_ids s l db =
      let already_recorded = find_student_ids_by_session prisma s.id db in
      let attended_sibling = attended_elsewhere s s.lecture_schedule_id db in
      keep (λ id. not (in_set already_recorded id) && not (in_set attended_sibling id))
        (expected_ids s l db)

  unfoldable pub sweep_linked : Session → Option LectureSchedule → ℕ → Db → Db × SweepOutcome
  unfolding mark_absences_swept create_absences missing_ids
  sweep_linked s none now db =
      let (db', marked) = mark_absences_swept prisma s.id now db in
      (db', record { created = 0; unlinked = true; marked = marked })
  sweep_linked s (some l) now db =
      if not (l.organization_id == s.organization_id)
      then (db, record { created = 0; unlinked = false; marked = false })
      else (let (db', created) = create_absences prisma s.id (missing_ids s l db) now db in
          let (db'', marked) = mark_absences_swept prisma s.id now db' in
          (db'', record { created = created; unlinked = false; marked = marked }))

  unfoldable pub sweep_one : Session → ℕ → Db → Db × SweepOutcome
  unfolding sweep_linked schedule_of
  sweep_one s now db = sweep_linked s (schedule_of prisma s db) now db

  unfoldable pub sweep_all : List Session → ℕ → AbsenceSweepResult → Db → Db × AbsenceSweepResult
  unfolding sweep_one add_outcome
  sweep_all [] now result db = (db, result)
  sweep_all (s ∷ pending) now result db =
      let (db', outcome) = sweep_one s now db in
      sweep_all pending now (add_outcome result outcome) db'

  unfoldable pub sweep_absences : ℕ → ℕ → Db → Db × AbsenceSweepResult
  unfolding sweep_all find_closed_awaiting_sweep
  sweep_absences batch_size now db =
      let pending = find_closed_awaiting_sweep prisma batch_size db in
      sweep_all pending now
        (record { examined = length pending; swept = 0; absences_created = 0; unlinked = 0 }) db

  unfoldable pub run_sweep :
      SessionWindowConfig → ℕ → ℕ → Db → Db × StaleCloseResult × AbsenceSweepResult
  unfolding close_stale_sessions sweep_absences
  run_sweep config batch_size now db =
      let (db', stale) = close_stale_sessions config batch_size now db in
      let (db'', absences) = sweep_absences batch_size now db' in (db'', stale, absences)
