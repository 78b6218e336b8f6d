-- ===== src/Outbox/Inbox.antt =====
-- What a person sees of the outbox: the inbox queries of
-- backend/src/repositories/notification.repository.ts and, of
-- backend/src/services/notification.service.ts, unreadCount, markRead and markAllRead.
use wall_e_campus_assistant.Prelude.{
  ℕ, Bool, not, ◌&&◌, Option, none, some, ◌==◌, is_none, Result, ok, err, if◌then◌else◌,
}
use wall_e_campus_assistant.Errors.{Failure, not_found}
use wall_e_campus_assistant.Database.{Prisma}
use wall_e_campus_assistant.Outbox.{Notification, Notifications, is_pending}

pub record NotificationActor : Type 0 where
  pub id : ℕ
  pub organization_id : ℕ

unfoldable pub is_of : NotificationActor → Notification → Bool
is_of actor n = n.user_id == actor.id && n.organization_id == actor.organization_id

abbrev pub read_with : ℕ → Notification → Notification
read_with at n = record n { read_at = some at }

abbrev pub is_unread : NotificationActor → Notification → Bool
is_unread actor n = is_of actor n && is_none n.read_at && not (is_pending n.status)

module _ (prisma : Prisma) where
  unfoldable pub count_unread_for_user : NotificationActor → Notifications → ℕ
  unfolding is_of
  count_unread_for_user actor rows = prisma.count_rows Notification (is_unread actor) rows

  unfoldable pub find_by_id_for_user : ℕ → NotificationActor → Notifications → Option Notification
  unfolding is_of
  find_by_id_for_user id actor rows =
      prisma.find_unique Notification (λ n. n.id == id && is_of actor n) rows

  unfoldable pub mark_read : ℕ → NotificationActor → ℕ → Notifications → Notifications × ℕ
  unfolding is_of
  mark_read id actor at rows =
      prisma.update_many Notification (λ n. n.id == id && is_of actor n && is_none n.read_at)
        (read_with at) rows

  unfoldable pub mark_all_read : NotificationActor → ℕ → Notifications → Notifications × ℕ
  unfolding is_of
  mark_all_read actor at rows =
      prisma.update_many Notification (is_unread actor) (read_with at) rows

  -- markRead of the service, on the row that was found, and markAllRead; what is presented is the
  -- row itself.
  unfoldable pub mark_found_read :
      Option Notification
      → NotificationActor
      → ℕ
      → Notifications
      → Result Failure (Notifications × Notification)
  unfolding mark_read
  mark_found_read none actor now rows = err (not_found "Notification not found")
  mark_found_read (some n) actor now rows =
      if not (is_none n.read_at)
      then ok (rows, n)
      else ok ((mark_read n.id actor now rows).0, read_with now n)

  unfoldable pub read_notification :
      ℕ → NotificationActor → ℕ → Notifications → Result Failure (Notifications × Notification)
  unfolding mark_found_read find_by_id_for_user
  read_notification id actor now rows =
      mark_found_read (find_by_id_for_user id actor rows) actor now rows

  unfoldable pub read_all_notifications :
      NotificationActor → ℕ → Notifications → Notifications × ℕ × ℕ
  unfolding mark_all_read
  read_all_notifications actor now rows =
      let (rows', updated) = mark_all_read actor now rows in (rows', updated, 0)
