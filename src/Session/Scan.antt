-- ===== src/Session/Scan.antt =====
-- scanAttendance of backend/src/services/attendance.service.ts, with the errors of
-- backend/src/types/scan.types.ts. The clock is read once, so the token is verified at `now` too;
-- the row's scan time is that instant.
pub mod Laws
pub mod Projected
use wall_e_campus_assistant.Prelude.{
  ℕ, Bool, true, false, not, ◌&&◌, Option, none, some, List, [], ◌∷◌, String, ◌==◌, is_none, Result,
  ok, err, ◌>>=◌, ◌>>◌, throw_if, if◌then◌else◌,
}
use wall_e_campus_assistant.Text.{Text}
use wall_e_campus_assistant.Errors.{AppError, Failure, thrown, unique_violation}
use wall_e_campus_assistant.Cohort.{
  ScheduleCriteria, CohortProfileFields, ScheduleMatchField, CohortResolution, resolved,
  missing_fields, unreadable_semester, resolve_cohort, cohort_matches,
}
use wall_e_campus_assistant.Database.{Prisma}
use wall_e_campus_assistant.Qr.{
  Jwt, Verification, accepted, token_expired, invalid, decode_qr_token_unsafe, verify_qr_token,
}
use wall_e_campus_assistant.Session.Window.{
  SessionWindowConfig, SessionLifecycleState, upcoming, in_progress, pending, recorded,
  session_state, AttendanceStatus, punctuality,
}
use wall_e_campus_assistant.Session.Store.{
  Session, Attendance, LectureSchedule, Course, Student, Db,
}
use wall_e_campus_assistant.Session.Repository.{
  find_session, schedule_of, course_of, find_student, find_by_student_and_session,
  create_attendance, attendance_row,
}
use wall_e_campus_assistant.Session.Service.{window_input}

pub data ScanErrorCode : Type 0 where
  qr_invalid qr_expired session_not_found session_wrong_organization session_not_started
        session_ended session_closed not_in_cohort profile_incomplete already_recorded :
      ScanErrorCode

unfoldable pub scan_error_status : ScanErrorCode → ℕ
scan_error_status qr_invalid = 400
scan_error_status qr_expired = 400
scan_error_status session_not_found = 404
scan_error_status session_wrong_organization = 403
scan_error_status session_not_started = 409
scan_error_status session_ended = 409
scan_error_status session_closed = 409
scan_error_status not_in_cohort = 403
scan_error_status profile_incomplete = 400
scan_error_status already_recorded = 409

unfoldable pub scan_error_message : ScanErrorCode → String
scan_error_message qr_invalid = "Invalid QR code"
scan_error_message qr_expired = "Invalid or expired QR code"
scan_error_message session_not_found = "Session not found"
scan_error_message session_wrong_organization = "This session does not belong to your university"
scan_error_message session_not_started = "This session has not started yet"
scan_error_message session_ended = "This lecture has ended — attendance is no longer being taken"
scan_error_message session_closed = "Session is no longer active"
scan_error_message not_in_cohort = "This lecture is not part of your timetable"
scan_error_message profile_incomplete = "Complete your academic profile before scanning attendance"
scan_error_message already_recorded = "Attendance already recorded for this session"

-- The details of a profile that cannot be placed.
pub data ScanDetails : Type 0 where
  no_details : ScanDetails
  fields_missing : List ScheduleMatchField → ScanDetails
  semester_unreadable : Option Text → ScanDetails

-- The thrown error has the code's status, and its message unless another is given.
pub record ScanFailure : Type 0 where
  pub code : ScanErrorCode
  pub status_code : ℕ
  pub message : String
  pub details : ScanDetails

pub data ScanRefusal : Type 0 where
  refused : ScanFailure → ScanRefusal
  duplicate_row : ScanRefusal

unfoldable pub scan_error_with : ScanErrorCode → Option String → ScanDetails → ScanRefusal
unfolding scan_error_status scan_error_message
scan_error_with code none details = refused (record {
  code = code;
  status_code = scan_error_status code;
  message = scan_error_message code;
  details = details;
})
scan_error_with code (some message) details = refused (record {
  code = code;
  status_code = scan_error_status code;
  message = message;
  details = details;
})

unfoldable pub scan_error : ScanErrorCode → ScanRefusal
unfolding scan_error_with
scan_error code = scan_error_with code none no_details

-- The catch of verifyToken.
unfoldable pub verified : Verification → Result ScanRefusal (Unit {0})
unfolding scan_error_with
verified (accepted session_id) = ok tt
verified token_expired =
    err (scan_error_with qr_expired (some "Invalid or expired QR code") no_details)
verified invalid = err (scan_error_with qr_invalid (some "Invalid or expired QR code") no_details)

pub record ScanActor : Type 0 where
  pub id : ℕ
  pub organization_id : ℕ

-- The columns of a schedule that address a cohort.
abbrev pub address_of : LectureSchedule → ScheduleCriteria
address_of l = record {
  faculty = l.faculty;
  department = l.department;
  level = l.level;
  semester = l.semester;
  section = l.section;
}

unfoldable pub in_cohort : LectureSchedule → CohortResolution → Result ScanRefusal (Unit {0})
unfolding scan_error_with scan_error cohort_matches
in_cohort l (missing_fields fields) =
    err (scan_error_with profile_incomplete none (fields_missing fields))
in_cohort l (unreadable_semester semester) =
    err (scan_error_with profile_incomplete none (semester_unreadable semester))
in_cohort l (resolved criteria) =
    throw_if (not (cohort_matches (address_of l) criteria)) (scan_error not_in_cohort)

-- Step 5: exactly one state may record attendance.
unfoldable pub scannable : SessionLifecycleState → Result ScanRefusal (Unit {0})
unfolding scan_error
scannable in_progress = ok tt
scannable upcoming = err (scan_error session_not_started)
scannable pending = err (scan_error session_ended)
scannable recorded = err (scan_error session_closed)

unfoldable pub found : {A : Type 0} → ScanErrorCode → Option A → Result ScanRefusal A
unfolding scan_error
found code none = err (scan_error code)
found code (some a) = ok a

abbrev pub inserted : Option Db → Result ScanRefusal Db
inserted none = err duplicate_row
inserted (some db) = ok db

pub record LectureSummary : Type 0 where
  pub id : ℕ
  pub start_time : Text
  pub end_time : Text
  pub instructor : Text

-- The success payload; its message is always the same.
pub record ScanSuccess : Type 0 where
  pub attendance : Attendance
  pub session_id : ℕ
  pub title : Text
  pub room : Option Text
  pub start_time : ℕ
  pub course : Option Course
  pub lecture : Option LectureSummary

abbrev pub lecture_summary : Option LectureSchedule → Option LectureSummary
lecture_summary none = none
lecture_summary (some l) = some (record {
  id = l.id;
  start_time = l.start_time;
  end_time = l.end_time;
  instructor = l.instructor_full_name;
})

unfoldable pub present_scan :
    Attendance → Session → Option LectureSchedule → Option Course → ScanSuccess
present_scan attendance s schedule course = record {
  attendance = attendance;
  session_id = s.id;
  title = s.title;
  room = s.room;
  start_time = s.start_time;
  course = course;
  lecture = lecture_summary schedule;
}

abbrev pub profile_of : Option Student → Option CohortProfileFields
profile_of none = none
profile_of (some s) = some s.profile

-- The parts of the environment and of the attendance configuration that a scan reads.
pub record ScanConfig : Type 0 where
  pub window : SessionWindowConfig
  pub late_after_minutes : ℕ
  pub allow_unlinked_sessions : Bool

module _ (prisma : Prisma) (jwt : Jwt) (jwt_secret : Text) (config : ScanConfig) where
  unfoldable pub assert_eligible :
      Session → Option LectureSchedule → ScanActor → Db → Result ScanRefusal (Unit {0})
  unfolding in_cohort resolve_cohort find_student scan_error
  assert_eligible s none actor db =
      throw_if (not config.allow_unlinked_sessions) (scan_error not_in_cohort)
  assert_eligible s (some l) actor db = do
    throw_if (not (l.organization_id == s.organization_id)) (scan_error session_wrong_organization)
    in_cohort l (resolve_cohort (profile_of (find_student prisma actor.id db)))

  -- Steps 3 to 7, for the session that the token names.
  unfoldable pub scan_session :
      Session → Option LectureSchedule → ScanActor → ℕ → Db → Result ScanRefusal (ScanSuccess × Db)
  scan_session s schedule actor now db = do
    throw_if (not (s.organization_id == actor.organization_id))
        (scan_error session_wrong_organization)
    assert_eligible s schedule actor db
    scannable (session_state (window_input s schedule) now config.window)
    throw_if (not (is_none (find_by_student_and_session prisma actor.id s.id db)))
        (scan_error already_recorded)
    let status = punctuality s.start_time now config.late_after_minutes
    db' ← inserted (create_attendance prisma actor.id s.id status now db)
    ok (
      present_scan (attendance_row actor.id s.id status now) s schedule (course_of prisma s db),
      db',
    )

  unfoldable pub scan_attendance :
      jwt.Token → ScanActor → ℕ → Db → Result ScanRefusal (ScanSuccess × Db)
  scan_attendance token actor now db = do
    session_id ← found qr_invalid (decode_qr_token_unsafe jwt jwt_secret token)
    s ← found session_not_found (find_session prisma session_id db)
    verified (verify_qr_token jwt jwt_secret token s.qr_secret now)
    scan_session s (schedule_of prisma s db) actor now db
