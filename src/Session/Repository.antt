-- ===== src/Session/Repository.antt =====
-- The queries of backend/src/repositories/session.repository.ts, attendance.repository.ts,
-- student.repository.ts (findByUserId, findCohort) and of ScheduleRepository.findById. A Set of ids
-- is a list of them.

use wall_e_campus_assistant.Prelude.{
  ℕ, Bool, true, false, not, ◌&&◌, Option, none, some, List, [], ◌∷◌, map, ltb, leb, ◌==◌,
  same_option, is_none, any,
}
use wall_e_campus_assistant.Text.{Text, trim}
use wall_e_campus_assistant.Access.Roles.{is_student}
use wall_e_campus_assistant.Database.{Prisma}
use wall_e_campus_assistant.Session.Window.{
  active, closed, is_active, is_closed, AttendanceStatus, absent,
}
use wall_e_campus_assistant.Session.Store.{
  SessionCloseReason, Session, Attendance, LectureSchedule, Course, Student, Db, same_attendance,
  same_session,
}

-- The columns that session.create is given, and those that the database fills in.
pub record NewSession : Type 0 where
  pub title : Text
  pub created_by_id : ℕ
  pub organization_id : ℕ
  pub lecture_schedule_id : Option ℕ
  pub course_id : Option ℕ
  pub room : Option Text

pub record SessionDefaults : Type 0 where
  pub id : ℕ
  pub qr_secret : Text
  pub start_time : ℕ

unfoldable pub session_row : NewSession → SessionDefaults → Session
session_row input defaults = record {
  id = defaults.id;
  title = input.title;
  created_by_id = input.created_by_id;
  organization_id = input.organization_id;
  lecture_schedule_id = input.lecture_schedule_id;
  course_id = input.course_id;
  room = input.room;
  qr_secret = defaults.qr_secret;
  status = active;
  start_time = defaults.start_time;
  end_time = none;
  close_reason = none;
  absences_swept_at = none;
}

abbrev pub is_absent : AttendanceStatus → Bool
is_absent absent = true
is_absent _ = false

abbrev pub has_id : ℕ → Session → Bool
has_id id s = s.id == id

-- The where of closeIfOpen and of markAbsencesSwept.
abbrev pub is_open_with_id : ℕ → Session → Bool
is_open_with_id id s = s.id == id && is_active s.status

abbrev pub is_unswept_with_id : ℕ → Session → Bool
is_unswept_with_id id s = s.id == id && is_none s.absences_swept_at

abbrev pub awaits_sweep : Session → Bool
awaits_sweep s = is_closed s.status && is_none s.absences_swept_at

-- The data of the updates.
abbrev pub close_with : ℕ → SessionCloseReason → Session → Session
close_with at reason s = record s {
  status = closed;
  end_time = some at;
  close_reason = some reason;
}

abbrev pub swept_at : ℕ → Session → Session
swept_at at s = record s { absences_swept_at = some at }

abbrev pub attendance_row : ℕ → ℕ → AttendanceStatus → ℕ → Attendance
attendance_row student session status at = record {
  student_id = student;
  session_id = session;
  status = status;
  scan_time = at;
}

abbrev pub end_key : Option ℕ → ℕ
end_key none = 0
end_key (some t) = t

abbrev pub start_key : Session → ℕ
start_key s = s.start_time

-- The where of findOpenedForScheduleBetween.
abbrev pub opened_for_between : ℕ → ℕ → ℕ → ℕ → Session → Bool
opened_for_between schedule organization from to s =
    same_option s.lecture_schedule_id (some schedule)
    && s.organization_id == organization
    && leb from s.start_time
    && ltb s.start_time to

abbrev pub in_set : List ℕ → ℕ → Bool
in_set ids x = any (λ y. y == x) ids

-- The arguments of findCohort.
pub record CohortCriteria : Type 0 where
  pub organization_id : ℕ
  pub faculty : Text
  pub department : Text
  pub level : ℕ
  pub section : Text

module _ (prisma : Prisma) where
  unfoldable pub create_session : NewSession → SessionDefaults → Db → Option Db
  unfolding session_row same_session
  create_session input defaults db =
      elim (prisma.create Session same_session (session_row input defaults) db.sessions) [
        | none ↦ none
        | some rows ↦ some (record db { sessions = rows })
      ]

  unfoldable pub find_session : ℕ → Db → Option Session
  find_session id db = prisma.find_unique Session (has_id id) db.sessions

  -- The joins of findForScan.
  unfoldable pub schedule_of : Session → Db → Option LectureSchedule
  schedule_of s db =
      prisma.find_unique LectureSchedule (λ l. same_option s.lecture_schedule_id (some l.id))
        db.schedules

  unfoldable pub course_of : Session → Db → Option Course
  course_of s db = prisma.find_unique Course (λ c. same_option s.course_id (some c.id)) db.courses

  unfoldable pub find_schedule : ℕ → Db → Option LectureSchedule
  find_schedule id db = prisma.find_unique LectureSchedule (λ l. l.id == id) db.schedules

  -- updateStatus as closeSession calls it.
  unfoldable pub update_status : ℕ → ℕ → SessionCloseReason → Db → Db
  update_status id end_time reason db = record db {
    sessions = (prisma.update_many Session (has_id id) (close_with end_time reason) db.sessions).0;
  }

  unfoldable pub find_open_for_stale_check : ℕ → Db → List Session
  find_open_for_stale_check limit db =
      prisma.find_many Session (λ s. is_active s.status) (λ s. s.start_time) limit db.sessions

  unfoldable pub close_if_open : ℕ → ℕ → SessionCloseReason → Db → Db × Bool
  close_if_open id end_time reason db =
      let (rows, changed) =
        prisma.update_many Session (is_open_with_id id) (close_with end_time reason) db.sessions in
      (record db { sessions = rows }, changed == 1)

  unfoldable pub find_closed_awaiting_sweep : ℕ → Db → List Session
  find_closed_awaiting_sweep limit db =
      prisma.find_many Session awaits_sweep (λ s. end_key s.end_time) limit db.sessions

  unfoldable pub mark_absences_swept : ℕ → ℕ → Db → Db × Bool
  mark_absences_swept id at db =
      let (rows, changed) =
        prisma.update_many Session (is_unswept_with_id id) (swept_at at) db.sessions in
      (record db { sessions = rows }, changed == 1)

  unfoldable pub find_opened_for_schedule_between : ℕ → ℕ → ℕ → ℕ → Db → List Session
  find_opened_for_schedule_between schedule organization from to db =
      prisma.find_all_by Session start_key (opened_for_between schedule organization from to)
        db.sessions

  -- attendance.create; the scan time is the database's clock.
  unfoldable pub create_attendance : ℕ → ℕ → AttendanceStatus → ℕ → Db → Option Db
  unfolding same_attendance
  create_attendance student session status at db =
      elim (prisma.create Attendance same_attendance (attendance_row student session status at)
        db.attendances) [ none ↦ none | some rows ↦ some (record db { attendances = rows }) ]

  unfoldable pub find_by_student_and_session : ℕ → ℕ → Db → Option Attendance
  find_by_student_and_session student session db =
      prisma.find_unique Attendance (λ a. a.student_id == student && a.session_id == session)
        db.attendances

  unfoldable pub find_student_ids_by_session : ℕ → Db → List ℕ
  find_student_ids_by_session session db =
      map (λ a. a.student_id)
        (prisma.find_all Attendance (λ a. a.session_id == session) db.attendances)

  unfoldable pub find_attended_student_ids_by_sessions : List ℕ → Db → List ℕ
  find_attended_student_ids_by_sessions [] db = []
  find_attended_student_ids_by_sessions (i ∷ ids) db =
      map (λ a. a.student_id)
        (prisma.find_all Attendance (λ a. in_set (i ∷ ids) a.session_id && not (is_absent a.status))
          db.attendances)

  unfoldable pub create_absences : ℕ → List ℕ → ℕ → Db → Db × ℕ
  unfolding same_attendance
  create_absences session [] at db = (db, 0)
  create_absences session (i ∷ ids) at db =
      let (rows, created) =
        prisma.create_many Attendance same_attendance
          (map (λ student. attendance_row student session absent at) (i ∷ ids)) db.attendances in
      (record db { attendances = rows }, created)

  unfoldable pub find_student : ℕ → Db → Option Student
  find_student user db = prisma.find_unique Student (λ s. s.user_id == user) db.students

  abbrev same_insensitive : Option Text → Text → Bool
  same_insensitive none value = false
  same_insensitive (some field) value = prisma.equals_insensitive field (trim value)

  -- cohortWhere
  unfoldable pub cohort_where : CohortCriteria → Student → Bool
  unfolding trim
  cohort_where criteria s =
      same_insensitive s.profile.faculty criteria.faculty
      && same_insensitive s.profile.department criteria.department
      && same_insensitive s.profile.section criteria.section
      && same_option s.profile.level (some criteria.level)
      && s.user_organization_id == criteria.organization_id
      && is_student s.user_role
      && s.user_is_active

  unfoldable pub find_cohort : CohortCriteria → Db → List Student
  unfolding cohort_where
  find_cohort criteria db = prisma.find_all Student (cohort_where criteria) db.students
