-- ===== src/Timetable/Service.antt =====
-- The changes of the timetable that backend/src/services/schedule.service.ts makes. What presents a
-- row is left out; the message of a clash names the lecture that it is with.
use wall_e_campus_assistant.Prelude.{
  ℕ, Bool, true, false, not, Option, none, some, List, ◌==◌, Result, ok, err, ◌>>=◌, ◌>>◌, throw_if,
  if◌then◌else◌,
}
use wall_e_campus_assistant.Text.{Text, text_ltb}
use wall_e_campus_assistant.Cohort.Semester.{codes}
use wall_e_campus_assistant.Errors.{Failure, not_found, bad_request, unique_violation}
use wall_e_campus_assistant.Access.Roles.{is_instructor}
use wall_e_campus_assistant.Database.{Prisma}
use wall_e_campus_assistant.Session.Store.{DayOfWeek, LectureSchedule}
use wall_e_campus_assistant.Outbox.{
  Notifications, delete_unsent_for_schedule, cancel_pending_for_schedule,
}
use wall_e_campus_assistant.Timetable.{
  CourseRow, UserRow, TimetableDb, SlotProbe, same_schedule_id, find_instructor_conflict,
  find_room_conflict,
}

pub data ScheduleFailure : Type 0 where
  instructor_teaches room_booked : LectureSchedule → ScheduleFailure
  -- The message names the semester.
  semester_unreadable : Option Text → ScheduleFailure
  failed : Failure → ScheduleFailure

-- CreateScheduleInput; the id is the database's.
pub record CreateScheduleInput : Type 0 where
  pub id : ℕ
  pub course_id : ℕ
  pub instructor_id : ℕ
  pub faculty : Text
  pub department : Text
  pub level : ℕ
  pub semester : ℕ
  pub section : Text
  pub day_of_week : DayOfWeek
  pub start_time : Text
  pub end_time : Text
  pub room : Text

-- A field that is none is left as it is.
pub record UpdateScheduleInput : Type 0 where
  pub course_id : Option ℕ
  pub instructor_id : Option ℕ
  pub faculty : Option Text
  pub department : Option Text
  pub level : Option ℕ
  pub semester : Option ℕ
  pub section : Option Text
  pub day_of_week : Option DayOfWeek
  pub start_time : Option Text
  pub end_time : Option Text
  pub room : Option Text
  pub is_active : Option Bool

abbrev pub or_old : {A : Type 0} → Option A → A → A
or_old none old = old
or_old (some new) old = new

abbrev pub name_of : Option UserRow → Text → Text
name_of none old = old
name_of (some user) old = user.full_name

abbrev pub created_row : CreateScheduleInput → ℕ → UserRow → LectureSchedule
created_row input organization_id instructor = record {
  id = input.id;
  organization_id = organization_id;
  instructor_id = input.instructor_id;
  instructor_full_name = instructor.full_name;
  course_id = input.course_id;
  faculty = input.faculty;
  department = input.department;
  level = input.level;
  semester = input.semester;
  section = input.section;
  day_of_week = input.day_of_week;
  start_time = input.start_time;
  end_time = input.end_time;
  room = input.room;
  is_active = true;
}

-- { ...existing, ...input }, which is also the row that the update leaves.
abbrev pub merged_row : UpdateScheduleInput → Option UserRow → LectureSchedule → LectureSchedule
merged_row input instructor l = record l {
  instructor_id = or_old input.instructor_id l.instructor_id;
  instructor_full_name = name_of instructor l.instructor_full_name;
  course_id = or_old input.course_id l.course_id;
  faculty = or_old input.faculty l.faculty;
  department = or_old input.department l.department;
  level = or_old input.level l.level;
  semester = or_old input.semester l.semester;
  section = or_old input.section l.section;
  day_of_week = or_old input.day_of_week l.day_of_week;
  start_time = or_old input.start_time l.start_time;
  end_time = or_old input.end_time l.end_time;
  room = or_old input.room l.room;
  is_active = or_old input.is_active l.is_active;
}

abbrev pub probe_of : LectureSchedule → Option ℕ → SlotProbe
probe_of l exclude_id = record {
  organization_id = l.organization_id;
  day_of_week = l.day_of_week;
  start_time = l.start_time;
  end_time = l.end_time;
  exclude_id = exclude_id;
}

unfoldable pub course_in_org : ℕ → Option CourseRow → Result ScheduleFailure (Unit {0})
course_in_org organization_id none = err (failed (not_found "Course not found"))
course_in_org organization_id (some course) =
    throw_if (not (course.organization_id == organization_id))
      (failed (not_found "Course not found"))

unfoldable pub instructor_in_org : ℕ → Option UserRow → Result ScheduleFailure UserRow
instructor_in_org organization_id none =
    err (failed (bad_request "Instructor not found in this organization"))
instructor_in_org organization_id (some user) = do
  throw_if (not (user.organization_id == organization_id))
      (failed (bad_request "Instructor not found in this organization"))
  throw_if (not (is_instructor user.role))
      (failed (bad_request "The assigned instructor must be a user with the INSTRUCTOR role"))
  throw_if (not user.is_active)
      (failed (bad_request "The assigned instructor's account is deactivated"))
  ok user

unfoldable pub schedule_in_org : ℕ → Option LectureSchedule → Result ScheduleFailure LectureSchedule
schedule_in_org organization_id none = err (failed (not_found "Schedule not found"))
schedule_in_org organization_id (some l) =
    if not (l.organization_id == organization_id)
    then err (failed (not_found "Schedule not found"))
    else ok l

unfoldable pub no_clash :
    Option LectureSchedule → Option LectureSchedule → Result ScheduleFailure (Unit {0})
no_clash (some l) room_clash = err (instructor_teaches l)
no_clash none (some l) = err (room_booked l)
no_clash none none = ok tt

abbrev pub switched_off : LectureSchedule → LectureSchedule
switched_off l = record l { is_active = false }

abbrev pub inserted_schedule :
    TimetableDb → Option (List LectureSchedule) → Result ScheduleFailure TimetableDb
inserted_schedule db none = err (failed unique_violation)
inserted_schedule db (some rows) = ok (record db { schedules = rows })

abbrev pub some_user : Result ScheduleFailure UserRow → Result ScheduleFailure (Option UserRow)
some_user (ok user) = ok (some user)
some_user (err e) = err e

module _ (prisma : Prisma) where
  unfoldable pub assert_course_in_org : ℕ → ℕ → TimetableDb → Result ScheduleFailure (Unit {0})
  unfolding course_in_org
  assert_course_in_org id organization_id db =
      course_in_org organization_id (prisma.find_unique CourseRow (λ c. c.id == id) db.courses)

  unfoldable pub assert_instructor_in_org : ℕ → ℕ → TimetableDb → Result ScheduleFailure UserRow
  unfolding instructor_in_org
  assert_instructor_in_org id organization_id db =
      instructor_in_org organization_id (prisma.find_unique UserRow (λ u. u.id == id) db.users)

  unfoldable pub load_in_org : ℕ → ℕ → TimetableDb → Result ScheduleFailure LectureSchedule
  unfolding schedule_in_org
  load_in_org id organization_id db =
      schedule_in_org organization_id
        (prisma.find_unique LectureSchedule (λ l. l.id == id) db.schedules)

  -- For the row that would be written.
  unfoldable pub assert_slot_is_free :
      LectureSchedule → Option ℕ → List LectureSchedule → Result ScheduleFailure (Unit {0})
  unfolding no_clash find_instructor_conflict find_room_conflict
  assert_slot_is_free l exclude_id rows =
      no_clash (find_instructor_conflict prisma l.instructor_id (probe_of l exclude_id) rows)
        (find_room_conflict prisma l.room (probe_of l exclude_id) rows)

  unfoldable pub create_schedule :
      CreateScheduleInput → ℕ → TimetableDb → Result ScheduleFailure TimetableDb
  create_schedule input organization_id db = do
    assert_course_in_org input.course_id organization_id db
    instructor ← assert_instructor_in_org input.instructor_id organization_id db
    let row = created_row input organization_id instructor
    assert_slot_is_free row none db.schedules
    inserted_schedule db (prisma.create LectureSchedule same_schedule_id row db.schedules)

  abbrev pub course_if_given : Option ℕ → ℕ → TimetableDb → Result ScheduleFailure (Unit {0})
  course_if_given none organization_id db = ok tt
  course_if_given (some id) organization_id db = assert_course_in_org id organization_id db

  abbrev pub instructor_if_given :
      Option ℕ → ℕ → TimetableDb → Result ScheduleFailure (Option UserRow)
  instructor_if_given none organization_id db = ok none
  instructor_if_given (some id) organization_id db =
      some_user (assert_instructor_in_org id organization_id db)

  abbrev pub slot_if_active :
      ℕ → LectureSchedule → List LectureSchedule → Result ScheduleFailure (Unit {0})
  slot_if_active id l rows = if l.is_active then assert_slot_is_free l (some id) rows else ok tt

  -- scheduleRepo.update, and what the outbox is told of it.
  abbrev pub with_update :
      ℕ → (LectureSchedule → LectureSchedule) → Notifications → TimetableDb → TimetableDb
  with_update id change notifications db = record db {
    schedules = (prisma.update_many LectureSchedule (λ l. l.id == id) change db.schedules).0;
    notifications = notifications;
  }

  unfoldable pub update_schedule :
      ℕ → UpdateScheduleInput → ℕ → TimetableDb → Result ScheduleFailure TimetableDb
  update_schedule id input organization_id db = do
    existing ← load_in_org id organization_id db
    course_if_given input.course_id organization_id db
    instructor ← instructor_if_given input.instructor_id organization_id db
    let merged = merged_row input instructor existing
    throw_if (not (text_ltb merged.start_time merged.end_time))
        (failed (bad_request "startTime must be before endTime"))
    slot_if_active id merged db.schedules
    ok (
        with_update id (merged_row input instructor)
          (delete_unsent_for_schedule prisma id db.notifications).0 db)

  -- A lecture that is off already is answered as it is.
  abbrev pub deactivated : ℕ → Bool → TimetableDb → TimetableDb
  deactivated id false db = db
  deactivated id true db =
      with_update id switched_off
        (cancel_pending_for_schedule prisma id (codes "The lecture was cancelled")
          db.notifications).0
        db

  unfoldable pub deactivate_schedule : ℕ → ℕ → TimetableDb → Result ScheduleFailure TimetableDb
  deactivate_schedule id organization_id db = do
    existing ← load_in_org id organization_id db
    ok (deactivated id existing.is_active db)
