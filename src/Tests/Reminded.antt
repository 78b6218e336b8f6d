-- ===== src/Tests/Reminded.antt =====
-- A weekly lecture on a campus two hours east of Greenwich, and the reminders of it.
use wall_e_campus_assistant.Database.Rows.{insert_all}
use wall_e_campus_assistant.Prelude.{
  ℕ, ◌+◌, ◌-◌, ◌*◌, ◌≤◌, ◌<◌, ◌≡◌, ◌↔◌, refl, subst, map, All, All-∈, inl, inr, some, none, List,
  [], ◌∷◌, ◌∈◌, arith, true, if◌then◌else◌, ◌⊎◌, Bool-cases, if◌then◌else◌, ltb,
}
use wall_e_campus_assistant.Cohort.Semester.{codes}
use wall_e_campus_assistant.Database.Reference.{reference}
use wall_e_campus_assistant.Session.Store.{monday}
use wall_e_campus_assistant.Occurrence.{
  TimeZone, RecurringSlot, day_ms, zoned_time_to_utc, parse_clock, occurrences_between,
  next_occurrence,
}
use wall_e_campus_assistant.Occurrence.Zones.{IsZone, IsUnambiguous}
use wall_e_campus_assistant.Occurrence.Laws.{IsSlotTime, occurrences_between_iff}
use wall_e_campus_assistant.Occurrence.Next.{next_occurrence_exists}
use wall_e_campus_assistant.Outbox.{
  Notification, Notifications, NotificationDraft, lecture_instructor_24h, lecture_instructor_30m,
  lecture_student_10m, type_index, draft_row, same_occurrence,
}
use wall_e_campus_assistant.Reminders.{
  to_instructor, to_student, ReminderRule, ScheduleForReminders, ReminderTables, Timing, NewId,
  draft_for, drafts_for, upcoming_drafts, generate_upcoming, find_active_for_reminders,
  recipients_for, slot_of,
}
use wall_e_campus_assistant.Reminders.Covered.{IsFresh}
use wall_e_campus_assistant.Reminders.Generated.{
  IsReminderOf, generate_upcoming-covers, generate_upcoming-again,
}
use wall_e_campus_assistant.Tests.{student_of}
use wall_e_campus_assistant.Tests.Lectures.{logic, ada}

-- The clock of the campus.
abbrev campus : TimeZone
campus = record { reading = λ t. t + 7200000; weekday_name = λ t. codes "Monday" }

-- Nine o'clock.
abbrev nine_oclock : ℕ
nine_oclock = 32400000

-- An instant of a Thursday.
abbrev thursday_noon : ℕ
thursday_noon = 7 * day_ms + 43200000

abbrev mondays : RecurringSlot
mondays = record { day_of_week = monday; start_time = codes "09:00" }

mondays-parsed : parse_clock (codes "09:00") ≡ some nine_oclock
unfolding parse_clock
mondays-parsed = refl

-- Its clock from the spring on: at half past eight in Greenwich on a Monday it is put forward by an hour.
abbrev spring_change : ℕ
spring_change = 11 * day_ms + 30600000

abbrev spring : TimeZone
spring = record {
  reading = λ t. if ltb t spring_change then t + 7200000 else t + 10800000;
  weekday_name = λ t. codes "Monday";
}

spring-cases :
    (t : ℕ)
    → ((spring.reading t ≡ t + 7200000) × (t < spring_change))
      ⊎ ((spring.reading t ≡ t + 10800000) × (spring_change ≤ t))
spring-cases t = ground arith

spring-IsZone : IsZone spring
spring-IsZone = record {
  later_day = λ a b h. let x = spring-cases a in let y = spring-cases b in omega arith;
  ahead = λ a b h. let x = spring-cases a in let y = spring-cases b in omega arith;
  behind = λ a b h. let x = spring-cases a in let y = spring-cases b in omega arith;
}

-- Nine o'clock on that Monday is two hours ahead of Greenwich and on the days after it three.
nine_on_every_day : (day : ℕ) → (t : ℕ) × (spring.reading t ≡ day * day_ms + nine_oclock)
nine_on_every_day day = elim (Bool-cases (ltb day 12)) [
  | inl e ↦
      let t = day * day_ms + nine_oclock - 7200000 in let x = spring-cases t in (t, ground arith)
  | inr e ↦
      let t = day * day_ms + nine_oclock - 10800000 in let x = spring-cases t in (t, ground arith)
]

spring-IsUnambiguous : IsUnambiguous spring nine_oclock thursday_noon
spring-IsUnambiguous = record {
  change = 3600000;
  changed_by = λ a b. let x = spring-cases a in let y = spring-cases b in omega arith;
  unchanged = λ t s h c lo hi. let x = spring-cases t in let y = spring-cases s in omega arith;
  on_every_day = λ day h. nine_on_every_day day;
}

-- The Monday after, at nine.
abbrev monday_nine : ℕ
monday_nine = 11 * day_ms + nine_oclock - 7200000

occurrences_between_iff_example :
    (monday_nine ∈ occurrences_between mondays thursday_noon (5 * day_ms) spring) ↔ (
      (thursday_noon < monday_nine)
      × (monday_nine ≤ thursday_noon + 5 * day_ms)
      × IsSlotTime spring nine_oclock 1 monday_nine)
occurrences_between_iff_example =
    occurrences_between_iff spring spring-IsZone nine_oclock (omega arith) thursday_noon
      spring-IsUnambiguous mondays (5 * day_ms) monday_nine mondays-parsed

next_occurrence_exists_example :
    (t : ℕ) × (next_occurrence mondays thursday_noon spring ≡ some t)
    × (thursday_noon < t)
    × (t ≤ thursday_noon + 8 * day_ms)
    × IsSlotTime spring nine_oclock 1 t
    × ((s : ℕ) → thursday_noon < s → s < t → ¬ IsSlotTime spring nine_oclock 1 s)
next_occurrence_exists_example =
    next_occurrence_exists spring spring-IsZone nine_oclock (omega arith) thursday_noon
      spring-IsUnambiguous mondays mondays-parsed

abbrev remindable : ScheduleForReminders
remindable = record { schedule = logic; course_name = codes "Logic"; instructor = ada }

abbrev tables : ReminderTables
tables = record {
  lectures = remindable ∷ [];
  db = record {
    sessions = [];
    attendances = [];
    schedules = [];
    courses = [];
    students = student_of 30 ∷ [];
  };
}

abbrev drawn : NewId
drawn = λ lecture starts_at kind user. 100 + type_index kind

abbrev at_their_time : Timing
at_their_time = record { not_before = some thursday_noon; due_at = none }

abbrev the_day_before : ReminderRule
the_day_before = record {
  minutes_before = 1440;
  type_ = lecture_instructor_24h;
  audience = to_instructor;
}

abbrev half_an_hour : ReminderRule
half_an_hour = record {
  minutes_before = 30;
  type_ = lecture_instructor_30m;
  audience = to_instructor;
}

abbrev ten_minutes : ReminderRule
ten_minutes = record { minutes_before = 10; type_ = lecture_student_10m; audience = to_student }

abbrev draft : ReminderRule → ℕ → NotificationDraft
draft rule user = draft_for campus drawn remindable at_their_time monday_nine rule user

abbrev drafts : List NotificationDraft
drafts = draft the_day_before 20 ∷ draft half_an_hour 20 ∷ draft ten_minutes 30 ∷ []

abbrev five_days : ℕ
five_days = 5 * day_ms

drafted :
    upcoming_drafts campus drawn reference remindable thursday_noon five_days tables.db ≡ drafts
unfolding drafts_for occurrences_between zoned_time_to_utc
drafted = refl

abbrev rows_made : Notifications
rows_made = map (draft_row thursday_noon) drafts

generated_rows :
    (generate_upcoming campus drawn reference thursday_noon five_days tables []).0 ≡ rows_made
unfolding generate_upcoming zoned_time_to_utc insert_all same_occurrence
generated_rows = refl

-- An id is of one draft only.
abbrev OnceMade : NotificationDraft → Notification → Type 0
OnceMade d n = n.id ≡ d.id → same_occurrence (draft_row thursday_noon d) n ≡ true

made_once : All (λ d. All (OnceMade d) rows_made) drafts
unfolding draft_for same_occurrence
made_once = (
  (λ h. refl, (λ h. absurd (omega (arith, h)), (λ h. absurd (omega (arith, h)), tt))),
  (
    (λ h. absurd (omega (arith, h)), (λ h. refl, (λ h. absurd (omega (arith, h)), tt))),
    ((λ h. absurd (omega (arith, h)), (λ h. absurd (omega (arith, h)), (λ h. refl, tt))), tt),
  ),
)

tables-IsFresh : IsFresh campus drawn reference thursday_noon five_days tables []
unfolding find_active_for_reminders
tables-IsFresh = λ l m d k n here e. elim m [
  | inl same ↦
      let k' =
        subst (λ z. d ∈ upcoming_drafts campus drawn reference z thursday_noon five_days tables.db)
          same k in
      All-∈ (OnceMade d) rows_made
        (All-∈ (λ z. All (OnceMade z) rows_made) drafts made_once (subst (λ z. d ∈ z) drafted k'))
        (subst (λ z. n ∈ z) generated_rows here) e
  | inr b ↦ absurd b
]

remindable_active : remindable ∈ find_active_for_reminders reference tables
unfolding find_active_for_reminders
remindable_active = inl refl

monday_nine_found :
    monday_nine ∈ occurrences_between (slot_of remindable) thursday_noon five_days campus
unfolding occurrences_between zoned_time_to_utc
monday_nine_found = inl refl

reader_addressed : 30 ∈ recipients_for reference remindable tables.db to_student
unfolding recipients_for
reader_addressed = inl refl

generate_upcoming-covers_example :
    (n : Notification) × (n
      ∈ (generate_upcoming campus drawn reference thursday_noon five_days tables []).0)
    × IsReminderOf remindable monday_nine lecture_student_10m 30 n
generate_upcoming-covers_example =
    generate_upcoming-covers campus drawn reference thursday_noon five_days tables [] tables-IsFresh
      remindable monday_nine ten_minutes 30 remindable_active monday_nine_found
      (inr (inr (inl refl))) reader_addressed (omega arith)

abbrev drawn_again : NewId
drawn_again = λ lecture starts_at kind user. 200 + type_index kind

generate_upcoming-again_example :
    ((generate_upcoming campus drawn_again reference thursday_noon five_days tables
        (generate_upcoming campus drawn reference thursday_noon five_days tables []).0).0
      ≡ (generate_upcoming campus drawn reference thursday_noon five_days tables []).0)
    × ((generate_upcoming campus drawn_again reference thursday_noon five_days tables
          (generate_upcoming campus drawn reference thursday_noon five_days tables []).0).1.created
        ≡ 0)
generate_upcoming-again_example =
    generate_upcoming-again campus drawn reference thursday_noon five_days tables [] tables-IsFresh
      drawn_again
