-- ===== src/Tests/Lectures.antt =====
-- A timetable with one lecture, the instants at which it is held, and its reminders.
use wall_e_campus_assistant.Cohort.{resolve_cohort}
use wall_e_campus_assistant.Database.Rows.{insert_new, remove_where, update_where}
use wall_e_campus_assistant.Prelude.{
  ◌≡◌, ◌≢◌, ◌↔◌, refl, inl, inr, some, none, List, [], ◌∷◌, ◌∈◌, true, false, ok,
}
use wall_e_campus_assistant.Text.{text_ltb, trim}
use wall_e_campus_assistant.Access.Roles.{instructor, student}
use wall_e_campus_assistant.Cohort.Semester.{codes, parse_semester_number}
use wall_e_campus_assistant.Database.Reference.{reference}
use wall_e_campus_assistant.Session.Store.{LectureSchedule, monday}
use wall_e_campus_assistant.Timetable.{TimetableDb, UserRow, find_timetable}
use wall_e_campus_assistant.Timetable.Service.{
  CreateScheduleInput, UpdateScheduleInput, create_schedule, update_schedule, deactivate_schedule,
  load_in_org, assert_course_in_org, assert_instructor_in_org, assert_slot_is_free,
}
use wall_e_campus_assistant.Timetable.Clashes.{IsTimetable}
use wall_e_campus_assistant.Timetable.Laws.{
  TimetableReach, unchanged, then_change, created, TimetableReach-IsTimetable,
}
use wall_e_campus_assistant.Timetable.Notices.{
  IsUnsentOf, update_schedule-notifications, deactivate_schedule_silences,
}
use wall_e_campus_assistant.Timetable.Views.{
  ScheduleActor, ScheduleQuery, get_schedule, get_student_timetable, list_schedules,
  student_criteria,
}
use wall_e_campus_assistant.Timetable.Views.Laws.{get_student_timetable_iff, list_schedules_shown}
use wall_e_campus_assistant.Timetable.Views.Seen.{IsTidy}
use wall_e_campus_assistant.Outbox.{
  Notification, Notifications, cancelled_with, pending, cancel_pending_for_schedule,
  delete_unsent_for_schedule,
}
use wall_e_campus_assistant.Tests.{lecture, student_of}
use wall_e_campus_assistant.Tests.Notices.{waiting}

abbrev no_notices : Notifications
no_notices = []

abbrev pub ada : UserRow
ada = record {
  id = 20;
  full_name = codes "Ada";
  organization_id = 1;
  role = instructor;
  is_active = true;
}

-- The lecture with columns as the schema leaves them.
abbrev pub logic : LectureSchedule
logic = record lecture {
  faculty = codes "Eng";
  department = codes "CS";
  section = codes "B";
  start_time = codes "09:00";
}

abbrev plan : TimetableDb
plan = record {
  schedules = logic ∷ [];
  courses = record { id = 5; organization_id = 1 } ∷ [];
  users = ada ∷ [];
  students = student_of 30 ∷ [];
  notifications = waiting ∷ [];
}

-- A second lecture of Ada's, right after the first and in the same room.
abbrev next_lecture : CreateScheduleInput
next_lecture = record {
  id = 8;
  course_id = 5;
  instructor_id = 20;
  faculty = codes "Eng";
  department = codes "CS";
  level = 3;
  semester = 1;
  section = codes "A";
  day_of_week = monday;
  start_time = codes "10:00";
  end_time = codes "12:00";
  room = codes "a1";
}

abbrev two_lectures : List LectureSchedule
two_lectures =
    logic
    ∷ record {
      id = 8;
      organization_id = 1;
      instructor_id = 20;
      instructor_full_name = codes "Ada";
      course_id = 5;
      faculty = codes "Eng";
      department = codes "CS";
      level = 3;
      semester = 1;
      section = codes "A";
      day_of_week = monday;
      start_time = codes "10:00";
      end_time = codes "12:00";
      room = codes "a1";
      is_active = true;
    }
    ∷ []

plan-IsTimetable : IsTimetable reference plan.schedules
unfolding text_ltb trim
plan-IsTimetable = record {
  apart = (refl, tt);
  one_id = (refl, tt);
  tidy = λ l m. elim m [ inl e ↦ rw e refl | inr b ↦ absurd b ];
  hours = λ l m. elim m [ inl e ↦ rw e refl | inr b ↦ absurd b ];
}

planned : TimetableReach reference plan (record plan { schedules = two_lectures })
unfolding create_schedule trim text_ltb assert_course_in_org assert_instructor_in_org
    assert_slot_is_free insert_new
planned = then_change unchanged (created next_lecture 1 (record { tidy = refl; hours = refl }) refl)

TimetableReach-IsTimetable_example : IsTimetable reference two_lectures
TimetableReach-IsTimetable_example = TimetableReach-IsTimetable reference planned plan-IsTimetable

-- The lecture moves to another room.
abbrev to_b2 : UpdateScheduleInput
to_b2 = record {
  course_id = none;
  instructor_id = none;
  faculty = none;
  department = none;
  level = none;
  semester = none;
  section = none;
  day_of_week = none;
  start_time = none;
  end_time = none;
  room = some (codes "B2");
  is_active = none;
}

moved :
    update_schedule reference 7 to_b2 1 plan
    ≡ ok (record plan {
      schedules = record logic { room = codes "B2" } ∷ [];
      notifications = no_notices;
    })
unfolding update_schedule load_in_org text_ltb assert_slot_is_free update_where
    delete_unsent_for_schedule remove_where
moved = refl

update_schedule-notifications_example :
    (waiting ∈ no_notices) ↔ ((waiting ∈ waiting ∷ []) × ¬ IsUnsentOf 7 waiting)
update_schedule-notifications_example =
    update_schedule-notifications reference 7 to_b2 1 plan
      (record plan {
        schedules = record logic { room = codes "B2" } ∷ [];
        notifications = no_notices;
      })
      moved waiting

abbrev off : LectureSchedule
off = record logic { is_active = false }

abbrev cancelled_notice : Notification
cancelled_notice = cancelled_with (codes "The lecture was cancelled") waiting

cancelled_off :
    deactivate_schedule reference 7 1 plan
    ≡ ok (record plan { schedules = off ∷ []; notifications = cancelled_notice ∷ [] })
unfolding deactivate_schedule load_in_org update_where cancel_pending_for_schedule
cancelled_off = refl

logic_loaded : load_in_org reference 7 1 plan ≡ ok logic
unfolding load_in_org
logic_loaded = refl

deactivate_schedule_silences_example : cancelled_notice.status ≢ pending
deactivate_schedule_silences_example =
    deactivate_schedule_silences reference 7 1 plan
      (record plan { schedules = off ∷ []; notifications = cancelled_notice ∷ [] }) logic
      logic_loaded refl cancelled_off cancelled_notice (inl refl) refl

abbrev reader : ScheduleActor
reader = record { id = 30; organization_id = 1; role = student }

logic-IsTidy : IsTidy logic
unfolding trim
logic-IsTidy = record { faculty_tidy = refl; department_tidy = refl; section_tidy = refl }

reader_week : get_student_timetable reference reader plan ≡ ok (logic ∷ [])
unfolding get_student_timetable student_criteria resolve_cohort parse_semester_number find_timetable
reader_week = refl

get_student_timetable_iff_example :
    (logic ∈ logic ∷ []) ↔ (get_schedule reference 7 reader plan ≡ ok logic)
get_student_timetable_iff_example =
    get_student_timetable_iff reference reader plan (logic ∷ []) logic refl (refl, tt) (inl refl)
      logic-IsTidy reader_week

abbrev on_monday : ScheduleQuery
on_monday = record {
  course_id = none;
  instructor_id = some 99;
  faculty = none;
  department = none;
  section = none;
  room = some (codes " A1");
  level = none;
  semester = none;
  day_of_week = some monday;
  is_active = none;
}

reader_list : list_schedules reference on_monday reader plan ≡ ok (logic ∷ [])
unfolding list_schedules resolve_cohort parse_semester_number find_timetable
reader_list = refl

list_schedules_shown_example :
    (logic.organization_id ≡ 1) × (get_schedule reference 7 reader plan ≡ ok logic)
list_schedules_shown_example =
    list_schedules_shown reference on_monday reader plan (logic ∷ []) logic (refl, tt) logic-IsTidy
      reader_list (inl refl)
