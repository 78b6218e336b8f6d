-- ===== src/Session/Store.antt =====
-- The tables behind attendance (models Session, Attendance, LectureSchedule, Course, StudentProfile
-- and User of backend/prisma/schema.prisma), with the columns that the code below reads. An id is
-- a number, and an instant its milliseconds. The id of an Attendance row is left out.
use wall_e_campus_assistant.Prelude.{ℕ, Bool, Option, List, ◌&&◌, ◌==◌}
use wall_e_campus_assistant.Text.{Text}
use wall_e_campus_assistant.Access.Roles.{UserRole}
use wall_e_campus_assistant.Cohort.{CohortProfileFields}
use wall_e_campus_assistant.Session.Window.{SessionStatus, AttendanceStatus}

pub data SessionCloseReason : Type 0 where
  manual auto_stale : SessionCloseReason

pub record Session : Type 0 where
  pub id : ℕ
  pub title : Text
  pub created_by_id : ℕ
  pub organization_id : ℕ
  pub lecture_schedule_id : Option ℕ
  pub course_id : Option ℕ
  pub room : Option Text
  pub qr_secret : Text
  pub status : SessionStatus
  pub start_time : ℕ
  pub end_time : Option ℕ
  pub close_reason : Option SessionCloseReason
  pub absences_swept_at : Option ℕ

pub record Attendance : Type 0 where
  pub student_id : ℕ
  pub session_id : ℕ
  pub status : AttendanceStatus
  pub scan_time : ℕ

pub data DayOfWeek : Type 0 where
  sunday monday tuesday wednesday thursday friday saturday : DayOfWeek

pub record LectureSchedule : Type 0 where
  pub id : ℕ
  pub organization_id : ℕ
  pub instructor_id : ℕ
  pub instructor_full_name : Text
  pub course_id : ℕ
  pub faculty : Text
  pub department : Text
  pub level : ℕ
  pub semester : ℕ
  pub section : Text
  pub day_of_week : DayOfWeek
  pub start_time : Text
  pub end_time : Text
  pub room : Text
  pub is_active : Bool

pub record Course : Type 0 where
  pub id : ℕ
  pub course_code : Text
  pub course_name : Text

-- A StudentProfile with the columns of its User.
pub record Student : Type 0 where
  pub user_id : ℕ
  pub user_organization_id : ℕ
  pub user_role : UserRole
  pub user_is_active : Bool
  pub profile : CohortProfileFields

pub record Db : Type 0 where
  pub sessions : List Session
  pub attendances : List Attendance
  pub schedules : List LectureSchedule
  pub courses : List Course
  pub students : List Student

-- @@unique([studentId, sessionId])
unfoldable pub same_attendance : Attendance → Attendance → Bool
same_attendance a b = a.student_id == b.student_id && a.session_id == b.session_id

-- The primary key of Session.
unfoldable pub same_session : Session → Session → Bool
same_session a b = a.id == b.id
