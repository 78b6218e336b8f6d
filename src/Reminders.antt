-- ===== src/Reminders.antt =====
-- The reminders of lectures: REMINDER_RULES of backend/src/config/notification.config.ts, the texts of
-- backend/src/services/notification.content.ts and the drafts of
-- backend/src/services/lecture-notification.service.ts. A notification's `data` is left out; the ids
-- that the database client draws are an argument.
pub mod Laws
pub mod Covered
pub mod Generated
use wall_e_campus_assistant.Prelude.{
  ℕ, ◌+◌, ◌-◌, ◌*◌, ◌/◌, Bool, true, false, not, ◌&&◌, ◌||◌, Option, none, some, List, [], ◌∷◌,
  ◌++◌, map, keep, ltb, leb, ◌==◌, same_option, any, if◌then◌else◌, length,
}
use wall_e_campus_assistant.Text.{Text}
use wall_e_campus_assistant.Cohort.{semester_value}
use wall_e_campus_assistant.Cohort.Semester.{codes, parse_semester_number}
use wall_e_campus_assistant.Access.Roles.{is_instructor}
use wall_e_campus_assistant.Database.{Prisma}
use wall_e_campus_assistant.Session.Window.{minute_ms}
use wall_e_campus_assistant.Session.Store.{LectureSchedule, Student, Db}
use wall_e_campus_assistant.Session.Repository.{CohortCriteria, find_cohort}
use wall_e_campus_assistant.Outbox.{
  NotificationType, lecture_instructor_24h, lecture_instructor_30m, lecture_student_10m,
  NotificationDraft, Notifications, same_type, create_many_ignoring_duplicates,
  release_for_delivery,
}
use wall_e_campus_assistant.Timetable.{UserRow}
use wall_e_campus_assistant.Occurrence.{
  TimeZone, RecurringSlot, day_ms, occurrences_between, format_clock, calendar_days_between,
  decimal, first_of,
}

pub data ReminderAudience : Type 0 where
  to_instructor to_student : ReminderAudience

pub record ReminderRule : Type 0 where
  pub minutes_before : ℕ
  pub type_ : NotificationType
  pub audience : ReminderAudience

abbrev pub reminder_rules : List ReminderRule
reminder_rules =
    record { minutes_before = 1440; type_ = lecture_instructor_24h; audience = to_instructor }
    ∷ record { minutes_before = 30; type_ = lecture_instructor_30m; audience = to_instructor }
    ∷ record { minutes_before = 10; type_ = lecture_student_10m; audience = to_student }
    ∷ []

-- A row of reminderSelect: the lecture, its course's name and its instructor.
pub record ScheduleForReminders : Type 0 where
  pub schedule : LectureSchedule
  pub course_name : Text
  pub instructor : UserRow

-- The tables that the generator reads.
pub record ReminderTables : Type 0 where
  pub lectures : List ScheduleForReminders
  pub db : Db

abbrev pub slot_of : ScheduleForReminders → RecurringSlot
slot_of l = record { day_of_week = l.schedule.day_of_week; start_time = l.schedule.start_time }

-- The texts.
unfoldable pub is_advance_warning : ℕ → Bool
is_advance_warning minutes_before = leb (24 * 60) minutes_before

abbrev pub plural : ℕ → Text
plural n = if n == 1 then [] else codes "s"

abbrev pub on_day : ℕ → Text → Text → Text
on_day days weekday at =
    if days == 0
    then codes "today at " ++ at
    else (if days == 1
        then codes "tomorrow at " ++ at
        else codes "on " ++ weekday ++ codes " at " ++ at)

-- Math.round(minutes / 60)
abbrev pub rounded_hours : ℕ → ℕ
rounded_hours minutes = (minutes + 30) / 60

-- For a reminder that is sent the rule's minutes before the lecture.
unfoldable pub when_phrase : ReminderRule → ℕ → ℕ → TimeZone → Text
unfolding is_advance_warning
when_phrase rule starts_at scheduled_for zone =
    if is_advance_warning rule.minutes_before
    then on_day (calendar_days_between scheduled_for starts_at zone) (zone.weekday_name starts_at)
        (format_clock starts_at zone)
    else (if leb 60 rule.minutes_before
        then codes "in "
          ++ decimal (rounded_hours rule.minutes_before)
          ++ codes " hour"
          ++ plural (rounded_hours rule.minutes_before)
        else codes "in "
          ++ decimal rule.minutes_before
          ++ codes " minute"
          ++ plural rule.minutes_before)

abbrev pub subject_of : ReminderAudience → Text → Text
subject_of to_instructor course_name = course_name ++ codes " lecture"
subject_of to_student course_name = course_name

unfoldable pub reminder_title : ReminderRule → Text
unfolding is_advance_warning
reminder_title rule =
    if is_advance_warning rule.minutes_before
    then codes "Upcoming lecture"
    else codes "Lecture starting soon"

unfoldable pub reminder_body : ReminderRule → ScheduleForReminders → ℕ → TimeZone → Text
unfolding when_phrase is_advance_warning
reminder_body rule l starts_at zone =
    subject_of rule.audience l.course_name
    ++ (if is_advance_warning rule.minutes_before then codes " is " else codes " starts ")
    ++ when_phrase rule starts_at (starts_at - rule.minutes_before * minute_ms) zone
    ++ codes ". Room "
    ++ l.schedule.room
    ++ codes "."

-- What may move a draft: no reminder before this time, or all at this time.
pub record Timing : Type 0 where
  pub not_before : Option ℕ
  pub due_at : Option ℕ

-- naturalTime < notBefore
abbrev pub is_past : Option ℕ → ℕ → ℕ → Bool
is_past none starts_at lead = false
is_past (some now) starts_at lead = ltb starts_at (now + lead)

abbrev pub time_for : Option ℕ → ℕ → ℕ
time_for none natural = natural
time_for (some due_at) natural = due_at

-- The id that is drawn for a person's notification of a type of an occurrence of a lecture.
abbrev pub NewId : Type 0
NewId = ℕ → ℕ → NotificationType → ℕ → ℕ

-- What generateUpcoming counts.
pub record GenerationResult : Type 0 where
  pub scheduled_lectures : ℕ
  pub occurrences : ℕ
  pub drafted : ℕ
  pub created : ℕ

-- The occurrence, and what was drafted, created and released.
pub record SimulationResult : Type 0 where
  pub occurrence_starts_at : ℕ
  pub drafted : ℕ
  pub created : ℕ
  pub due_now : ℕ

abbrev pub cohort_of : LectureSchedule → CohortCriteria
cohort_of l = record {
  organization_id = l.organization_id;
  faculty = l.faculty;
  department = l.department;
  level = l.level;
  section = l.section;
}

-- The filter over the cohort.
unfoldable pub is_recipient : LectureSchedule → Student → Bool
unfolding parse_semester_number
is_recipient l p =
    same_option (parse_semester_number (semester_value p.profile.semester)) (some l.semester)
    && p.user_organization_id == l.organization_id

module _ (prisma : Prisma) where
  unfoldable pub recipients_for : ScheduleForReminders → Db → ReminderAudience → List ℕ
  unfolding is_recipient find_cohort
  recipients_for l db to_instructor =
      if not l.instructor.is_active
        || not (is_instructor l.instructor.role)
        || not (l.instructor.organization_id == l.schedule.organization_id)
      then []
      else l.instructor.id ∷ []
  recipients_for l db to_student =
      map (λ p. p.user_id)
        (keep (is_recipient l.schedule) (find_cohort prisma (cohort_of l.schedule) db))

  unfoldable pub find_active_for_reminders : ReminderTables → List ScheduleForReminders
  find_active_for_reminders tables =
      prisma.find_all ScheduleForReminders (λ l. l.schedule.is_active) tables.lectures

module _ (zone : TimeZone) (new_id : NewId) where
  unfoldable pub draft_for :
      ScheduleForReminders → Timing → ℕ → ReminderRule → ℕ → NotificationDraft
  unfolding reminder_title reminder_body
  draft_for l timing starts_at rule user = record {
    id = new_id l.schedule.id starts_at rule.type_ user;
    organization_id = l.schedule.organization_id;
    user_id = user;
    lecture_schedule_id = l.schedule.id;
    occurrence_starts_at = starts_at;
    type_ = rule.type_;
    title = reminder_title rule;
    body = reminder_body rule l starts_at zone;
    scheduled_for = time_for timing.due_at (starts_at - rule.minutes_before * minute_ms);
  }

  abbrev pub drafts_of_rule :
      ScheduleForReminders
      → (ReminderAudience → List ℕ)
      → Timing
      → ℕ
      → ReminderRule
      → List NotificationDraft
  drafts_of_rule l recipients timing starts_at rule =
      if is_past timing.not_before starts_at (rule.minutes_before * minute_ms)
      then []
      else map (draft_for l timing starts_at rule) (recipients rule.audience)

  -- The inner loop and the outer one.
  unfoldable pub drafts_of_rules :
      ScheduleForReminders
      → (ReminderAudience → List ℕ)
      → Timing
      → ℕ
      → List ReminderRule
      → List NotificationDraft
  unfolding draft_for
  drafts_of_rules l recipients timing starts_at [] = []
  drafts_of_rules l recipients timing starts_at (rule ∷ rules) =
      drafts_of_rule l recipients timing starts_at rule
      ++ drafts_of_rules l recipients timing starts_at rules

  unfoldable pub drafts_of :
      ScheduleForReminders
      → (ReminderAudience → List ℕ)
      → Timing
      → List ReminderRule
      → List ℕ
      → List NotificationDraft
  unfolding drafts_of_rules
  drafts_of l recipients timing rules [] = []
  drafts_of l recipients timing rules (starts_at ∷ occurrences) =
      drafts_of_rules l recipients timing starts_at rules
      ++ drafts_of l recipients timing rules occurrences

  module _ (prisma : Prisma) where
    unfoldable pub drafts_for :
        ScheduleForReminders → List ℕ → List ReminderRule → Timing → Db → List NotificationDraft
    unfolding drafts_of recipients_for
    drafts_for l occurrences rules timing db =
        drafts_of l (recipients_for prisma l db) timing rules occurrences

    abbrev pub upcoming_drafts : ScheduleForReminders → ℕ → ℕ → Db → List NotificationDraft
    upcoming_drafts l now horizon_ms db =
        drafts_for l (occurrences_between (slot_of l) now horizon_ms zone) reminder_rules
          (record { not_before = some now; due_at = none }) db

    unfoldable pub generate_each :
        List ScheduleForReminders → ℕ → ℕ → Db → Notifications → Notifications × GenerationResult
    unfolding drafts_for occurrences_between create_many_ignoring_duplicates
    generate_each [] now horizon_ms db rows =
        (rows, record { scheduled_lectures = 0; occurrences = 0; drafted = 0; created = 0 })
    generate_each (l ∷ lectures) now horizon_ms db rows =
        let drafts = upcoming_drafts l now horizon_ms db in
        let (rows', created) = create_many_ignoring_duplicates prisma drafts now rows in
        let (rows'', rest) = generate_each lectures now horizon_ms db rows' in
        (
          rows'',
          record {
            scheduled_lectures = 1 + rest.scheduled_lectures;
            occurrences =
                length (occurrences_between (slot_of l) now horizon_ms zone) + rest.occurrences;
            drafted = length drafts + rest.drafted;
            created = created + rest.created;
          },
        )

    unfoldable pub generate_upcoming :
        ℕ → ℕ → ReminderTables → Notifications → Notifications × GenerationResult
    unfolding generate_each find_active_for_reminders
    generate_upcoming now horizon_ms tables rows =
        generate_each (find_active_for_reminders prisma tables) now horizon_ms tables.db rows

    -- input.types: no types are all types.
    abbrev pub asked_rules : List NotificationType → List ReminderRule
    asked_rules [] = reminder_rules
    asked_rules (t ∷ types) = keep (λ rule. any (same_type rule.type_) (t ∷ types)) reminder_rules

    abbrev pub simulate_at :
        ScheduleForReminders
        → List ReminderRule
        → ℕ
        → Option ℕ
        → Db
        → Notifications
        → Notifications × Option SimulationResult
    simulate_at l rules now none db rows = (rows, none)
    simulate_at l rules now (some starts_at) db rows =
        let drafts =
          drafts_for l (starts_at ∷ []) rules (record { not_before = none; due_at = some now })
            db in
        let (rows', created) = create_many_ignoring_duplicates prisma drafts now rows in
        let (rows'', released) =
          release_for_delivery prisma l.schedule.id starts_at (map (λ rule. rule.type_) rules) now
            rows' in
        (
          rows'',
          some (record {
            occurrence_starts_at = starts_at;
            drafted = length drafts;
            created = created;
            due_now = released;
          }),
        )

    abbrev pub simulate_found :
        Option ScheduleForReminders
        → ℕ
        → List ReminderRule
        → ℕ
        → Db
        → Notifications
        → Notifications × Option SimulationResult
    simulate_found none organization_id rules now db rows = (rows, none)
    simulate_found (some l) organization_id rules now db rows =
        if not (l.schedule.organization_id == organization_id)
        then (rows, none)
        else simulate_at l rules now
            (first_of (occurrences_between (slot_of l) now (8 * day_ms) zone)) db rows

    unfoldable pub simulate_for_schedule :
        ℕ
        → ℕ
        → List NotificationType
        → ℕ
        → ReminderTables
        → Notifications
        → Notifications × Option SimulationResult
    unfolding drafts_for occurrences_between create_many_ignoring_duplicates release_for_delivery
    simulate_for_schedule lecture organization_id types now tables rows =
        simulate_found
          (prisma.find_unique ScheduleForReminders (λ l. l.schedule.id == lecture) tables.lectures)
          organization_id (asked_rules types) now tables.db rows
