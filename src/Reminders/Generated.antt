-- ===== src/Reminders/Generated.antt =====
-- What a run of the generator leaves, and that a second one adds nothing (generateUpcoming of
-- backend/src/services/lecture-notification.service.ts).
use wall_e_campus_assistant.Prelude.{
  ℕ, ◌+◌, ◌*◌, ◌≤◌, ◌≡◌, refl, true, Option, none, some, ◌∈◌, sym, ap, ◌∙◌, subst, arith, any_iff,
  ◌==◌, if◌then◌else◌,
}
use wall_e_campus_assistant.Database.{Prisma}
use wall_e_campus_assistant.Outbox.{
  Notification, Notifications, NotificationDraft, NotificationType, lecture_instructor_24h,
  lecture_instructor_30m, lecture_student_10m, account_approved, account_rejected,
  assignment_published, assignment_due_soon, grade_published, type_index, same_value,
  same_occurrence, conflicts, draft_row,
}
use wall_e_campus_assistant.Occurrence.{TimeZone, occurrences_between}
use wall_e_campus_assistant.Session.Window.{minute_ms}
use wall_e_campus_assistant.Reminders.{
  ReminderRule, ScheduleForReminders, ReminderTables, Timing, NewId, slot_of, reminder_rules,
  draft_for, recipients_for, drafts_for, generate_upcoming, find_active_for_reminders,
}
use wall_e_campus_assistant.Reminders.Laws.{∈-drafts_of_iff}
use wall_e_campus_assistant.Reminders.Covered.{
  generate_each-again, IsFresh, upcoming-same_occurrence,
}

-- A draft but for its id.
same_but_id :
    (zone : TimeZone) (new_id other_id : NewId) (l : ScheduleForReminders) (timing : Timing)
    (now starts_at : ℕ) (rule : ReminderRule) (user : ℕ) (n : Notification)
    → same_occurrence (draft_row now (draft_for zone new_id l timing starts_at rule user)) n
      ≡ same_occurrence (draft_row now (draft_for zone other_id l timing starts_at rule user)) n
unfolding same_occurrence draft_for
same_but_id zone new_id other_id l timing now starts_at rule user n = refl

type_of : ℕ → NotificationType
type_of n =
    if n == 0
    then lecture_instructor_24h
    else (if n == 1
        then lecture_instructor_30m
        else (if n == 2
            then lecture_student_10m
            else (if n == 3
                then account_approved
                else (if n == 4
                    then account_rejected
                    else (if n == 5
                        then assignment_published
                        else (if n == 6 then assignment_due_soon else (grade_published)))))))

type_of-type_index : (t : NotificationType) → type_of (type_index t) ≡ t
unfolding type_of
type_of-type_index lecture_instructor_24h = refl
type_of-type_index lecture_instructor_30m = refl
type_of-type_index lecture_student_10m = refl
type_of-type_index account_approved = refl
type_of-type_index account_rejected = refl
type_of-type_index assignment_published = refl
type_of-type_index assignment_due_soon = refl
type_of-type_index grade_published = refl

same_value_lem : (a : ℕ) (o : Option ℕ) → same_value (some a) o ≡ true → o ≡ some a
same_value_lem a none h = cc
same_value_lem a (some b) h = ground arith

-- A notification of the identity that a draft has.
pub record IsReminderOf (l : ScheduleForReminders) (starts_at : ℕ) (kind : NotificationType)
    (user : ℕ) (n : Notification) : Type 0 where
  pub user_is : n.user_id ≡ user
  pub lecture_is : n.lecture_schedule_id ≡ some l.schedule.id
  pub occurrence_is : n.occurrence_starts_at ≡ some starts_at
  pub type_is : n.type_ ≡ kind

reminder_of :
    (zone : TimeZone) (new_id : NewId) (l : ScheduleForReminders) (timing : Timing)
    (now starts_at : ℕ) (rule : ReminderRule) (user : ℕ) (n : Notification)
    → same_occurrence (draft_row now (draft_for zone new_id l timing starts_at rule user)) n ≡ true
    → IsReminderOf l starts_at rule.type_ user n
unfolding same_occurrence draft_for
reminder_of zone new_id l timing now starts_at rule user n h =
    let kind : type_index n.type_ ≡ type_index rule.type_ = ground arith in
    record {
      user_is = ground arith;
      lecture_is = same_value_lem l.schedule.id n.lecture_schedule_id (ground arith);
      occurrence_is = same_value_lem starts_at n.occurrence_starts_at (ground arith);
      type_is = sym (type_of-type_index n.type_) ∙ ap type_of kind ∙ type_of-type_index rule.type_;
    }

module _ (zone : TimeZone) (new_id : NewId) (prisma : Prisma) (now horizon_ms : ℕ)
    (tables : ReminderTables) (rows : Notifications)
    (fresh : IsFresh zone new_id prisma now horizon_ms tables rows) where
  -- After a run of the generator each person who is to be reminded of an occurrence of an active lecture
  -- within the horizon, by a rule whose time has not passed, has a notification of that rule's type for
  -- it; the ids drawn in the run must be of no other notification.
  pub generate_upcoming-covers :
      (l : ScheduleForReminders) (starts_at : ℕ) (rule : ReminderRule) (user : ℕ)
      → l ∈ find_active_for_reminders prisma tables
      → starts_at ∈ occurrences_between (slot_of l) now horizon_ms zone
      → rule ∈ reminder_rules
      → user ∈ recipients_for prisma l tables.db rule.audience
      → now + rule.minutes_before * minute_ms ≤ starts_at
      → (n : Notification) × (n
          ∈ (generate_upcoming zone new_id prisma now horizon_ms tables rows).0)
        × IsReminderOf l starts_at rule.type_ user n
  unfolding drafts_for
  generate_upcoming-covers l starts_at rule user m occurs r addressed ahead =
      let timing : Timing = record { not_before = some now; due_at = none } in
      let d = draft_for zone new_id l timing starts_at rule user in
      let drafted =
        (∈-drafts_of_iff zone new_id l (recipients_for prisma l tables.db) timing reminder_rules
            (occurrences_between (slot_of l) now horizon_ms zone) d).1
          (starts_at, occurs, (rule, r, (ground arith, (user, addressed, refl)))) in
      let (n, here, same) =
        upcoming-same_occurrence zone new_id prisma now horizon_ms tables rows fresh l m d
          drafted in
      (n, here, reminder_of zone new_id l timing now starts_at rule user n same)

  -- To run the generator again at once, whatever ids are drawn then, adds nothing and changes nothing;
  -- the ids drawn in the first run must be of no other notification.
  pub generate_upcoming-again :
      (other_id : NewId)
      → ((generate_upcoming zone other_id prisma now horizon_ms tables
            (generate_upcoming zone new_id prisma now horizon_ms tables rows).0).0
          ≡ (generate_upcoming zone new_id prisma now horizon_ms tables rows).0)
        × ((generate_upcoming zone other_id prisma now horizon_ms tables
              (generate_upcoming zone new_id prisma now horizon_ms tables rows).0).1.created
            ≡ 0)
  unfolding generate_upcoming drafts_for
  generate_upcoming-again other_id =
      let timing : Timing = record { not_before = some now; due_at = none } in
      let rows' = (generate_upcoming zone new_id prisma now horizon_ms tables rows).0 in
      generate_each-again zone other_id prisma (find_active_for_reminders prisma tables) now
        horizon_ms tables.db rows'
        (λ l m d k.
          let occurrences = occurrences_between (slot_of l) now horizon_ms zone in
          let recipients = recipients_for prisma l tables.db in
          let (starts_at, occurs, (rule, r, (past, (user, u, e)))) =
            (∈-drafts_of_iff zone other_id l recipients timing reminder_rules occurrences d).0 k in
          let first = draft_for zone new_id l timing starts_at rule user in
          let drafted =
            (∈-drafts_of_iff zone new_id l recipients timing reminder_rules occurrences first).1
              (starts_at, occurs, (rule, r, (past, (user, u, refl)))) in
          let (n, here, same) =
            upcoming-same_occurrence zone new_id prisma now horizon_ms tables rows fresh l m first
              drafted in
          let alike : same_occurrence (draft_row now d) n ≡ true =
            subst (λ (z : NotificationDraft). same_occurrence (draft_row now z) n ≡ true) (sym e)
              (sym (same_but_id zone new_id other_id l timing now starts_at rule user n) ∙ same) in
          (any_iff (conflicts (draft_row now d)) rows').1 (n, here, ground arith))
