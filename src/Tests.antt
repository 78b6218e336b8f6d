-- ===== src/Tests.antt =====
-- A university at a morning lecture: the data of the examples of the theorems.
mod Rights
mod Times
mod Cohorts
mod Attendances
mod Scans
mod Codes
mod Notices
mod Lectures
mod Accounts
mod Reminded
mod Seeds
use wall_e_campus_assistant.Prelude.{ℕ, ◌+◌, ◌*◌, Option, some, none, List, [], ◌∷◌, true, false}
use wall_e_campus_assistant.Text.{Text}
use wall_e_campus_assistant.Access.Roles.{UserRole, student, instructor}
use wall_e_campus_assistant.Access.Sessions.{SessionAuthActor}
use wall_e_campus_assistant.Cohort.{CohortProfileFields, ScheduleCriteria}
use wall_e_campus_assistant.Cohort.Semester.{codes}
use wall_e_campus_assistant.Session.Window.{
  minute_ms, SessionStatus, active, closed, present, SessionWindowConfig, LectureTimes,
}
use wall_e_campus_assistant.Session.Store.{
  Session, Attendance, LectureSchedule, Student, Db, manual, monday,
}
use wall_e_campus_assistant.Session.Scan.{ScanActor, ScanConfig}

abbrev pub nine : ℕ
nine = 1000000 * minute_ms

abbrev pub lecture_times : LectureTimes
lecture_times = record { start_time = codes "9:00"; end_time = codes "10:00" }

abbrev pub profile : CohortProfileFields
profile = record {
  faculty = some (codes "Eng");
  department = some (codes "CS");
  level = some 3;
  semester = some (codes "Fall");
  section = some (codes "B");
}

abbrev pub cohort : ScheduleCriteria
cohort = record {
  faculty = codes "Eng";
  department = codes "CS";
  level = 3;
  semester = 1;
  section = codes "B";
}

abbrev pub lecture : LectureSchedule
lecture = record {
  id = 7;
  organization_id = 1;
  instructor_id = 20;
  instructor_full_name = codes "Ada";
  course_id = 5;
  faculty = codes "eng";
  department = codes "CS ";
  level = 3;
  semester = 1;
  section = codes "b";
  day_of_week = monday;
  start_time = codes "9:00";
  end_time = codes "10:00";
  room = codes "A1";
  is_active = true;
}

abbrev pub session_of : ℕ → SessionStatus → Option ℕ → ℕ → Session
session_of id status end_time start = record {
  id = id;
  title = codes "Logic";
  created_by_id = 20;
  organization_id = 1;
  lecture_schedule_id = some 7;
  course_id = some 5;
  room = some (codes "A1");
  qr_secret = codes "q";
  status = status;
  start_time = start;
  end_time = end_time;
  close_reason = none;
  absences_swept_at = none;
}

abbrev pub running : Session
running = session_of 2 active none nine

abbrev pub finished : Session
finished = session_of 2 closed (some (nine + 60 * minute_ms)) nine

abbrev pub student_of : ℕ → Student
student_of id = record {
  user_id = id;
  user_organization_id = 1;
  user_role = student;
  user_is_active = true;
  profile = profile;
}

abbrev pub present_row : Attendance
present_row = record { student_id = 30; session_id = 2; status = present; scan_time = nine }

-- One session, a lecture and two students of its cohort; student 30 is on the roll.
abbrev pub tables : Session → Db
tables s = record {
  sessions = s ∷ [];
  attendances = present_row ∷ [];
  schedules = lecture ∷ [];
  courses = [];
  students = student_of 30 ∷ student_of 31 ∷ [];
}

abbrev pub lecturer : SessionAuthActor
lecturer = record { id = 20; role = instructor; organization_id = 1 }

abbrev pub window_config : SessionWindowConfig
window_config = record { default_session_minutes = 90; stale_grace_minutes = 15 }

abbrev pub scan_config : ScanConfig
scan_config = record {
  window = window_config;
  late_after_minutes = 10;
  allow_unlinked_sessions = false;
}

abbrev pub latecomer : ScanActor
latecomer = record { id = 31; organization_id = 1 }
