-- ===== src/Timetable/Views.antt =====
-- Who sees which lecture: getSchedule, getStudentTimetable, getInstructorTimetable and the scope of
-- listSchedules of backend/src/services/schedule.service.ts. What presents a row, the page of a list
-- and the search text of a query are left out.
pub mod Seen
pub mod Laws
use wall_e_campus_assistant.Prelude.{
  ℕ, Bool, true, false, not, ◌&&◌, ◌||◌, Option, none, some, List, ◌==◌, Result, ok, err, ◌>>=◌,
  ◌>>◌, throw_if, if◌then◌else◌,
}
use wall_e_campus_assistant.Text.{Text}
use wall_e_campus_assistant.Errors.{not_found, bad_request}
use wall_e_campus_assistant.Access.Roles.{
  UserRole, system_owner, university_admin, department_admin, instructor, student, is_instructor,
  is_student,
}
use wall_e_campus_assistant.Cohort.{
  ScheduleCriteria, CohortProfileFields, CohortResolution, resolved, missing_fields,
  unreadable_semester, resolve_cohort, cohort_matches,
}
use wall_e_campus_assistant.Database.{Prisma}
use wall_e_campus_assistant.Session.Store.{DayOfWeek, LectureSchedule, Student}
use wall_e_campus_assistant.Timetable.{TimetableDb, ScheduleFilter, find_timetable}
use wall_e_campus_assistant.Timetable.Service.{
  ScheduleFailure, failed, semester_unreadable, load_in_org,
}

pub record ScheduleActor : Type 0 where
  pub id : ℕ
  pub organization_id : ℕ
  pub role : UserRole

-- The conditions of a list request.
pub record ScheduleQuery : Type 0 where
  pub course_id : Option ℕ
  pub instructor_id : Option ℕ
  pub faculty : Option Text
  pub department : Option Text
  pub section : Option Text
  pub room : Option Text
  pub level : Option ℕ
  pub semester : Option ℕ
  pub day_of_week : Option DayOfWeek
  pub is_active : Option Bool

abbrev pub found_profile : Option Student → Option CohortProfileFields
found_profile none = none
found_profile (some s) = some s.profile

-- The fields of a lecture that address it.
abbrev pub lecture_address : LectureSchedule → ScheduleCriteria
lecture_address l = record {
  faculty = l.faculty;
  department = l.department;
  level = l.level;
  semester = l.semester;
  section = l.section;
}

-- The details of the two errors are left out.
unfoldable pub criteria_or_throw : CohortResolution → Result ScheduleFailure ScheduleCriteria
criteria_or_throw (resolved criteria) = ok criteria
criteria_or_throw (missing_fields fields) =
    err (failed (bad_request "Complete your academic profile before requesting your timetable"))
criteria_or_throw (unreadable_semester semester) = err (semester_unreadable semester)

abbrev pub criteria_filter : ScheduleCriteria → ScheduleFilter → ScheduleFilter
criteria_filter c filter = record filter {
  faculty = some c.faculty;
  department = some c.department;
  level = some c.level;
  semester = some c.semester;
  section = some c.section;
  is_active = some true;
}

abbrev pub organization_filter : ℕ → ScheduleFilter
organization_filter organization_id = record {
  organization_id = organization_id;
  course_id = none;
  instructor_id = none;
  faculty = none;
  department = none;
  section = none;
  room = none;
  level = none;
  semester = none;
  day_of_week = none;
  is_active = none;
}

-- What every role may ask for.
abbrev pub base_scope : ScheduleQuery → ScheduleActor → ScheduleFilter
base_scope query actor = record (organization_filter actor.organization_id) {
  course_id = query.course_id;
  day_of_week = query.day_of_week;
  room = query.room;
}

abbrev pub asked_scope : ScheduleQuery → Option ℕ → ScheduleActor → ScheduleFilter
asked_scope query instructor_id actor = record (base_scope query actor) {
  faculty = query.faculty;
  department = query.department;
  section = query.section;
  level = query.level;
  semester = query.semester;
  is_active = query.is_active;
  instructor_id = instructor_id;
}

module _ (prisma : Prisma) where
  unfoldable pub student_criteria : ℕ → TimetableDb → Result ScheduleFailure ScheduleCriteria
  unfolding criteria_or_throw
  student_criteria user db = criteria_or_throw (
      resolve_cohort
        (found_profile (prisma.find_unique Student (λ s. s.user_id == user) db.students)))

  abbrev pub shown_if_addressed :
      LectureSchedule → ScheduleCriteria → Result ScheduleFailure LectureSchedule
  shown_if_addressed l criteria =
      if not (cohort_matches (lecture_address l) criteria) || not l.is_active
      then err (failed (not_found "Schedule not found"))
      else ok l

  unfoldable pub shown_to :
      ScheduleActor → TimetableDb → LectureSchedule → Result ScheduleFailure LectureSchedule
  shown_to actor db l = elim actor.role [
    | instructor ↦
        if not (l.instructor_id == actor.id)
        then err (failed (not_found "Schedule not found"))
        else ok l
    | student ↦ student_criteria actor.id db >>= shown_if_addressed l
    | _ ↦ ok l
  ]

  unfoldable pub get_schedule :
      ℕ → ScheduleActor → TimetableDb → Result ScheduleFailure LectureSchedule
  unfolding shown_to
  get_schedule id actor db = do
    schedule ← load_in_org prisma id actor.organization_id db
    shown_to actor db schedule

  unfoldable pub get_student_timetable :
      ScheduleActor → TimetableDb → Result ScheduleFailure (List LectureSchedule)
  get_student_timetable actor db = do
    criteria ← student_criteria actor.id db
    ok (
        find_timetable prisma (criteria_filter criteria (organization_filter actor.organization_id))
          db.schedules)

  unfoldable pub get_instructor_timetable : ScheduleActor → TimetableDb → List LectureSchedule
  get_instructor_timetable actor db =
      find_timetable prisma
        (record (organization_filter actor.organization_id) {
          instructor_id = some actor.id;
          is_active = some true;
        })
        db.schedules

  abbrev pub student_scope :
      ScheduleQuery
      → ScheduleActor
      → Result ScheduleFailure ScheduleCriteria
      → Result ScheduleFailure ScheduleFilter
  student_scope query actor (ok criteria) = ok (criteria_filter criteria (base_scope query actor))
  student_scope query actor (err e) = err e

  unfoldable pub resolve_scope :
      ScheduleQuery → ScheduleActor → TimetableDb → Result ScheduleFailure ScheduleFilter
  unfolding student_criteria
  resolve_scope query actor db = elim actor.role [
    | student ↦ student_scope query actor (student_criteria actor.id db)
    | instructor ↦ ok (asked_scope query (some actor.id) actor)
    | _ ↦ ok (asked_scope query query.instructor_id actor)
  ]

  -- listSchedules, all pages.
  unfoldable pub list_schedules :
      ScheduleQuery → ScheduleActor → TimetableDb → Result ScheduleFailure (List LectureSchedule)
  unfolding resolve_scope
  list_schedules query actor db = do
    filter ← resolve_scope query actor db
    ok (find_timetable prisma filter db.schedules)
