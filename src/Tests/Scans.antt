-- ===== src/Tests/Scans.antt =====
-- Opening, projecting, scanning and closing at a concrete lecture.
use wall_e_campus_assistant.Prelude.{
  ℕ, ◌+◌, ◌*◌, ◌≡◌, refl, some, none, [], ◌∷◌, ok, arith, inl, inr,
}
use wall_e_campus_assistant.Text.{Text, trim, to_lower_case, text_eq}
use wall_e_campus_assistant.Cohort.{same_text}
use wall_e_campus_assistant.Cohort.Semester.{codes, parse_semester_number}
use wall_e_campus_assistant.Access.Sessions.{is_session_operator}
use wall_e_campus_assistant.Database.Rows.{insert_new}
use wall_e_campus_assistant.Session.Window.{punctuality, closed}
use wall_e_campus_assistant.Session.Repository.{find_schedule}
use wall_e_campus_assistant.Session.Service.{new_session, lacks_room}
use wall_e_campus_assistant.Database.Reference.{reference}
use wall_e_campus_assistant.Qr.{generate_qr_token, decode_qr_token_unsafe, verify_qr_token}
use wall_e_campus_assistant.Qr.Reference.{reference_jwt}
use wall_e_campus_assistant.Session.Window.{
  minute_ms, late, session_state, lecture_duration_minutes, clock_minutes,
}
use wall_e_campus_assistant.Session.Store.{Session, Db, manual}
use wall_e_campus_assistant.Session.Repository.{
  SessionDefaults, attendance_row, find_session, schedule_of, create_session,
  find_by_student_and_session, create_attendance, course_of,
}
use wall_e_campus_assistant.Session.Service.{
  CreateSessionInput, open_session, close_session, get_qr_token, load_visible, mint_qr_token,
}
use wall_e_campus_assistant.Session.Service.Written.{open_session_iff, close_session_iff}
use wall_e_campus_assistant.Session.Scan.{
  ScanSuccess, present_scan, scan_session, scan_attendance, assert_eligible, found, verified,
  scannable, in_cohort,
}
use wall_e_campus_assistant.Session.Scan.Laws.{IsScanned, scan_attendance_iff}
use wall_e_campus_assistant.Session.Scan.Projected.{scan_attendance-get_qr_token}
use wall_e_campus_assistant.Tests.{
  nine, running, tables, lecture, lecturer, latecomer, scan_config, present_row,
}

abbrev jwt_secret : Text
jwt_secret = codes "s"

abbrev scan_time : ℕ
scan_time = nine + 15 * minute_ms

abbrev code_on_screen : reference_jwt.Token
code_on_screen = generate_qr_token reference_jwt jwt_secret 2 (codes "q") scan_time

abbrev scanned_tables : Db
scanned_tables = record (tables running) {
  attendances = present_row ∷ attendance_row 31 2 late scan_time ∷ [];
}

abbrev scan_result : ScanSuccess
scan_result = present_scan (attendance_row 31 2 late scan_time) running (some lecture) none

scan_attendance_iff_example :
    IsScanned reference reference_jwt jwt_secret scan_config code_on_screen latecomer scan_time
      (tables running)
      scanned_tables
      scan_result
unfolding scan_attendance scan_session found verified scannable assert_eligible in_cohort
    decode_qr_token_unsafe verify_qr_token generate_qr_token session_state find_session schedule_of
    lecture_duration_minutes clock_minutes trim to_lower_case same_text text_eq
    find_by_student_and_session create_attendance present_scan course_of parse_semester_number
    insert_new punctuality
scan_attendance_iff_example =
    (scan_attendance_iff reference reference_jwt jwt_secret scan_config code_on_screen latecomer
        scan_time (tables running) scanned_tables scan_result).0
      refl

scan_attendance-get_qr_token_example :
    (s : Session) × (find_session reference 2 (tables running) ≡ some s)
    × (scan_attendance reference reference_jwt jwt_secret scan_config code_on_screen latecomer
          (scan_time + 29000)
          (tables running)
        ≡ scan_session reference reference_jwt jwt_secret scan_config s
            (schedule_of reference s (tables running))
            latecomer
            (scan_time + 29000)
            (tables running))
unfolding get_qr_token load_visible mint_qr_token lecture_duration_minutes clock_minutes
scan_attendance-get_qr_token_example =
    scan_attendance-get_qr_token reference reference_jwt jwt_secret scan_config 2 lecturer latecomer
      scan_time (scan_time + 29000) (tables running) code_on_screen refl (omega arith)

abbrev request : CreateSessionInput
request = record { title = codes "Logic"; lecture_schedule_id = some 7; room = none }

abbrev defaults : SessionDefaults
defaults = record { id = 2; qr_secret = codes "q"; start_time = nine }

abbrev no_session : Db
no_session = record (tables running) { sessions = []; attendances = [] }

abbrev opened : Db
opened = record no_session { sessions = running ∷ [] }

open_session_iff_example :
    open_session reference request lecturer nine defaults no_session ≡ ok opened
unfolding is_session_operator find_schedule create_session new_session insert_new trim text_eq
    lacks_room
open_session_iff_example =
    (open_session_iff reference request lecturer nine defaults no_session opened).1 (
      inl refl,
      (
        some lecture,
        (
          refl,
          record {
            same_university = refl;
            own_lecture = λ e. refl;
            not_cancelled = refl;
            has_room = λ e. cc;
          },
          λ s m. absurd m,
        ),
        λ s m. absurd m,
        refl,
      ),
    )

abbrev after_hand : Session
after_hand = record running { status = closed; end_time = some nine; close_reason = some manual }

close_session_iff_example :
    close_session reference 2 lecturer nine (tables running)
    ≡ ok (record (tables running) { sessions = after_hand ∷ [] })
unfolding find_session
close_session_iff_example =
    (close_session_iff reference 2 lecturer nine (tables running)
        (record (tables running) { sessions = after_hand ∷ [] })).1
      (running, refl, refl, inr (inr (refl, refl)), refl, refl)
