-- ===== src/Timetable.antt =====
-- The timetable: backend/src/repositories/schedule.repository.ts, with the look-ups of a course and
-- of a user that backend/src/services/schedule.service.ts makes. A row of LectureSchedule has its
-- instructor's name, which is a join. The order of a list is left out.
pub mod Service
pub mod Clashes
pub mod Changes
pub mod Laws
pub mod Notices
pub mod Views
use wall_e_campus_assistant.Prelude.{
  ℕ, Bool, true, false, not, ◌&&◌, ◌||◌, Option, none, some, List, [], ◌∷◌, ◌==◌, same_option,
  is_none,
}
use wall_e_campus_assistant.Text.{Text, trim}
use wall_e_campus_assistant.Access.Roles.{UserRole}
use wall_e_campus_assistant.Database.{Prisma}
use wall_e_campus_assistant.Session.Store.{
  DayOfWeek, sunday, monday, tuesday, wednesday, thursday, friday, saturday, LectureSchedule,
  Student,
}
use wall_e_campus_assistant.Outbox.{Notifications}

abbrev pub day_index : DayOfWeek → ℕ
day_index sunday = 0
day_index monday = 1
day_index tuesday = 2
day_index wednesday = 3
day_index thursday = 4
day_index friday = 5
day_index saturday = 6

abbrev pub same_day : DayOfWeek → DayOfWeek → Bool
same_day a b = day_index a == day_index b

pub record CourseRow : Type 0 where
  pub id : ℕ
  pub organization_id : ℕ

pub record UserRow : Type 0 where
  pub id : ℕ
  pub full_name : Text
  pub organization_id : ℕ
  pub role : UserRole
  pub is_active : Bool

pub record TimetableDb : Type 0 where
  pub schedules : List LectureSchedule
  pub courses : List CourseRow
  pub users : List UserRow
  pub students : List Student
  pub notifications : Notifications

pub record SlotProbe : Type 0 where
  pub organization_id : ℕ
  pub day_of_week : DayOfWeek
  pub start_time : Text
  pub end_time : Text
  pub exclude_id : Option ℕ

-- The conditions of a filter; a field that is none is not asked for.
pub record ScheduleFilter : Type 0 where
  pub organization_id : ℕ
  pub course_id : Option ℕ
  pub instructor_id : Option ℕ
  pub faculty : Option Text
  pub department : Option Text
  pub section : Option Text
  pub room : Option Text
  pub level : Option ℕ
  pub semester : Option ℕ
  pub day_of_week : Option DayOfWeek
  pub is_active : Option Bool

abbrev pub same_schedule_id : LectureSchedule → LectureSchedule → Bool
same_schedule_id a b = a.id == b.id

abbrev pub asked_number : Option ℕ → ℕ → Bool
asked_number none value = true
asked_number (some n) value = value == n

abbrev pub asked_day : Option DayOfWeek → DayOfWeek → Bool
asked_day none value = true
asked_day (some d) value = same_day value d

abbrev pub asked_flag : Option Bool → Bool → Bool
asked_flag none value = true
asked_flag (some true) value = value
asked_flag (some false) value = not value

module _ (prisma : Prisma) where
  -- sameText
  unfoldable pub same_text_as : Text → Text → Bool
  same_text_as wanted value = prisma.equals_insensitive value (trim wanted)

  abbrev pub asked_text : Option Text → Text → Bool
  asked_text none value = true
  asked_text (some []) value = true
  asked_text (some (c ∷ wanted)) value = same_text_as (c ∷ wanted) value

  unfoldable pub overlapping : SlotProbe → LectureSchedule → Bool
  overlapping probe l =
      l.organization_id == probe.organization_id
      && same_day l.day_of_week probe.day_of_week
      && l.is_active
      && prisma.text_less l.start_time probe.end_time
      && prisma.text_less probe.start_time l.end_time
      && not (same_option probe.exclude_id (some l.id))

  unfoldable pub find_instructor_conflict :
      ℕ → SlotProbe → List LectureSchedule → Option LectureSchedule
  unfolding overlapping
  find_instructor_conflict instructor probe rows =
      prisma.find_unique LectureSchedule (λ l. overlapping probe l && l.instructor_id == instructor)
        rows

  unfoldable pub find_room_conflict :
      Text → SlotProbe → List LectureSchedule → Option LectureSchedule
  unfolding overlapping same_text_as
  find_room_conflict room probe rows =
      prisma.find_unique LectureSchedule (λ l. overlapping probe l && same_text_as room l.room) rows

  -- buildWhere, with no search text.
  unfoldable pub build_where : ScheduleFilter → LectureSchedule → Bool
  unfolding same_text_as
  build_where filter l =
      l.organization_id == filter.organization_id
      && asked_number filter.course_id l.course_id
      && asked_number filter.instructor_id l.instructor_id
      && asked_text filter.faculty l.faculty
      && asked_text filter.department l.department
      && asked_text filter.section l.section
      && asked_text filter.room l.room
      && asked_number filter.level l.level
      && asked_number filter.semester l.semester
      && asked_day filter.day_of_week l.day_of_week
      && asked_flag filter.is_active l.is_active

  unfoldable pub find_timetable : ScheduleFilter → List LectureSchedule → List LectureSchedule
  unfolding build_where
  find_timetable filter rows = prisma.find_all LectureSchedule (build_where filter) rows
