-- ===== src/Outbox.antt =====
-- The outbox of notifications: backend/src/repositories/notification.repository.ts over the model
-- Notification of backend/prisma/schema.prisma. The column `data` is left out; a lock's token is a
-- number. A call that reads the clock is given it.
pub mod Dispatcher
pub mod Updates
pub mod Steps
pub mod Inbox
use wall_e_campus_assistant.Prelude.{
  ℕ, ◌+◌, ◌-◌, Bool, true, false, not, ◌&&◌, ◌||◌, Option, none, some, List, [], ◌∷◌, map, take,
  ltb, leb, ◌==◌, same_option, is_none, any, if◌then◌else◌,
}
use wall_e_campus_assistant.Text.{Text}
use wall_e_campus_assistant.Database.{Prisma}

pub data NotificationType : Type 0 where
  lecture_instructor_24h lecture_instructor_30m lecture_student_10m account_approved
        account_rejected assignment_published assignment_due_soon grade_published :
      NotificationType

abbrev pub type_index : NotificationType → ℕ
type_index lecture_instructor_24h = 0
type_index lecture_instructor_30m = 1
type_index lecture_student_10m = 2
type_index account_approved = 3
type_index account_rejected = 4
type_index assignment_published = 5
type_index assignment_due_soon = 6
type_index grade_published = 7

abbrev pub same_type : NotificationType → NotificationType → Bool
same_type a b = type_index a == type_index b

pub data NotificationStatus : Type 0 where
  pending sent failed cancelled : NotificationStatus

abbrev pub is_pending : NotificationStatus → Bool
is_pending pending = true
is_pending _ = false

abbrev pub is_cancelled : NotificationStatus → Bool
is_cancelled cancelled = true
is_cancelled _ = false

pub record Notification : Type 0 where
  pub id : ℕ
  pub organization_id : ℕ
  pub user_id : ℕ
  pub lecture_schedule_id : Option ℕ
  pub occurrence_starts_at : Option ℕ
  pub type_ : NotificationType
  pub title : Text
  pub body : Text
  pub scheduled_for : ℕ
  pub sent_at : Option ℕ
  pub read_at : Option ℕ
  pub status : NotificationStatus
  pub failure_reason : Option Text
  pub attempts : ℕ
  pub locked_at : Option ℕ
  pub locked_by : Option ℕ
  pub created_at : ℕ

abbrev pub Notifications : Type 0
Notifications = List Notification

-- A draft; the id is the database's.
pub record NotificationDraft : Type 0 where
  pub id : ℕ
  pub organization_id : ℕ
  pub user_id : ℕ
  pub lecture_schedule_id : ℕ
  pub occurrence_starts_at : ℕ
  pub type_ : NotificationType
  pub title : Text
  pub body : Text
  pub scheduled_for : ℕ

abbrev pub draft_row : ℕ → NotificationDraft → Notification
draft_row now d = record {
  id = d.id;
  organization_id = d.organization_id;
  user_id = d.user_id;
  lecture_schedule_id = some d.lecture_schedule_id;
  occurrence_starts_at = some d.occurrence_starts_at;
  type_ = d.type_;
  title = d.title;
  body = d.body;
  scheduled_for = d.scheduled_for;
  sent_at = none;
  read_at = none;
  status = pending;
  failure_reason = none;
  attempts = 0;
  locked_at = none;
  locked_by = none;
  created_at = now;
}

-- A unique constraint takes two nulls for different values.
abbrev pub same_value : Option ℕ → Option ℕ → Bool
same_value (some a) (some b) = a == b
same_value none b = false
same_value (some a) none = false

-- notification_occurrence_identity
unfoldable pub same_occurrence : Notification → Notification → Bool
same_occurrence a b =
    a.user_id == b.user_id
    && same_value a.lecture_schedule_id b.lecture_schedule_id
    && same_value a.occurrence_starts_at b.occurrence_starts_at
    && same_type a.type_ b.type_

abbrev pub same_id : Notification → Notification → Bool
same_id a b = a.id == b.id

-- The primary key, or the constraint above.
abbrev pub conflicts : Notification → Notification → Bool
conflicts a b = same_id a b || same_occurrence a b

-- The where of claimDue.
abbrev pub is_unlocked_at : ℕ → ℕ → Option ℕ → Bool
is_unlocked_at now lock_timeout none = true
is_unlocked_at now lock_timeout (some locked_at) = ltb locked_at (now - lock_timeout)

unfoldable pub is_claimable : ℕ → ℕ → Notification → Bool
is_claimable now lock_timeout n =
    is_pending n.status && leb n.scheduled_for now && is_unlocked_at now lock_timeout n.locked_at

abbrev pub in_ids : List ℕ → ℕ → Bool
in_ids ids x = any (λ y. y == x) ids

-- The data of the updates.
abbrev pub locked_with : ℕ → ℕ → Notification → Notification
locked_with now token n = record n {
  locked_at = some now;
  locked_by = some token;
  attempts = n.attempts + 1;
}

abbrev pub sent_with : ℕ → Notification → Notification
sent_with at n = record n {
  status = sent;
  sent_at = some at;
  failure_reason = none;
  locked_at = none;
  locked_by = none;
}

abbrev pub failed_with : Text → Bool → Notification → Notification
failed_with reason give_up n = record n {
  status = (if give_up then failed else pending);
  failure_reason = some (take 500 reason);
  locked_at = none;
  locked_by = none;
}

abbrev pub cancelled_with : Text → Notification → Notification
cancelled_with reason n = record n {
  status = cancelled;
  failure_reason = some reason;
  locked_at = none;
  locked_by = none;
}

-- update on a unique key throws where no row has it.
abbrev pub updated : Notifications × ℕ → Option Notifications
updated (rows, count) = if count == 0 then none else some rows

module _ (prisma : Prisma) where
  unfoldable pub create_many_ignoring_duplicates :
      List NotificationDraft → ℕ → Notifications → Notifications × ℕ
  create_many_ignoring_duplicates [] now rows = (rows, 0)
  create_many_ignoring_duplicates (d ∷ drafts) now rows =
      prisma.create_many Notification conflicts (map (draft_row now) (d ∷ drafts)) rows

  -- The three queries of claimDue; other writes may come between them.
  unfoldable pub find_candidates : ℕ → ℕ → ℕ → Notifications → List ℕ
  unfolding is_claimable
  find_candidates now limit lock_timeout rows =
      map (λ n. n.id)
        (prisma.find_many Notification (is_claimable now lock_timeout) (λ n. n.scheduled_for) limit
          rows)

  unfoldable pub lock_candidates : List ℕ → ℕ → ℕ → ℕ → Notifications → Notifications
  unfolding is_claimable
  lock_candidates ids now token lock_timeout rows =
      (prisma.update_many Notification (λ n. in_ids ids n.id && is_claimable now lock_timeout n)
        (locked_with now token) rows).0

  unfoldable pub find_locked_by : ℕ → Notifications → List Notification
  find_locked_by token rows =
      prisma.find_all Notification
        (λ n. same_option n.locked_by (some token) && is_pending n.status) rows

  -- What claimDue does with the candidates.
  unfoldable pub claim_ids : List ℕ → ℕ → ℕ → ℕ → Notifications → Notifications × List Notification
  unfolding lock_candidates find_locked_by
  claim_ids [] now token lock_timeout rows = (rows, [])
  claim_ids (i ∷ ids) now token lock_timeout rows =
      let rows' = lock_candidates (i ∷ ids) now token lock_timeout rows in
      (rows', find_locked_by token rows')

  unfoldable pub claim_due : ℕ → ℕ → ℕ → ℕ → Notifications → Notifications × List Notification
  unfolding find_candidates claim_ids
  claim_due now token limit lock_timeout rows =
      claim_ids (find_candidates now limit lock_timeout rows) now token lock_timeout rows

  unfoldable pub mark_sent : ℕ → ℕ → Notifications → Option Notifications
  mark_sent id at rows =
      updated (prisma.update_many Notification (λ n. n.id == id) (sent_with at) rows)

  unfoldable pub mark_failed : ℕ → Text → Bool → Notifications → Option Notifications
  mark_failed id reason give_up rows =
      updated (prisma.update_many Notification (λ n. n.id == id) (failed_with reason give_up) rows)

  unfoldable pub cancel_overdue : ℕ → Text → Notifications → Notifications × ℕ
  cancel_overdue before reason rows =
      prisma.update_many Notification (λ n. is_pending n.status && ltb n.scheduled_for before)
        (cancelled_with reason) rows

  unfoldable pub delete_unsent_for_schedule : ℕ → Notifications → Notifications × ℕ
  delete_unsent_for_schedule schedule rows =
      prisma.delete_many Notification
        (λ n.
          same_option n.lecture_schedule_id (some schedule)
          && is_none n.sent_at
          && (is_pending n.status || is_cancelled n.status))
        rows

  unfoldable pub cancel_pending_for_schedule : ℕ → Text → Notifications → Notifications × ℕ
  cancel_pending_for_schedule schedule reason rows =
      prisma.update_many Notification
        (λ n. same_option n.lecture_schedule_id (some schedule) && is_pending n.status)
        (cancelled_with reason) rows

  unfoldable pub release_for_delivery :
      ℕ → ℕ → List NotificationType → ℕ → Notifications → Notifications × ℕ
  release_for_delivery schedule occurrence types at rows =
      prisma.update_many Notification
        (λ n.
          same_option n.lecture_schedule_id (some schedule)
          && same_option n.occurrence_starts_at (some occurrence)
          && any (same_type n.type_) types
          && is_pending n.status
          && ltb at n.scheduled_for)
        (λ n. record n { scheduled_for = at }) rows

  unfoldable pub count_pending_before : ℕ → Notifications → ℕ
  count_pending_before at rows =
      prisma.count_rows Notification (λ n. is_pending n.status && leb n.scheduled_for at) rows
