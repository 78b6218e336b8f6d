-- ===== src/Outbox/Steps.antt =====
-- The writes of backend/src/repositories/notification.repository.ts as steps in any order: the
-- generator, several dispatchers, changes of the timetable and the readers all write to the outbox.
pub mod Locks
use wall_e_campus_assistant.Prelude.{
  ℕ, ◌+◌, ◌<◌, ◌≡◌, ◌≢◌, ◌⊎◌, ◌↔◌, refl, inl, inr, Bool, true, false, not, ◌&&◌, ◌||◌, Option, some,
  none, List, [], ◌∷◌, ◌∈◌, sym, ap, ◌∙◌, subst, arith, Bool-cases, map, ∈-map_iff, ∈-keep_iff,
  ◌==◌, ltb, leb, same_option, is_none, any, if◌then◌else◌,
}
use wall_e_campus_assistant.Text.{Text}
use wall_e_campus_assistant.Database.{Prisma}
use wall_e_campus_assistant.Database.Rows.{update_where, insert_all, remove_where}
use wall_e_campus_assistant.Database.Rows.Laws.{
  Distinct, Distinct-insert_all, Distinct-keep, Distinct-update_apart, ∈-update_where, ∈-insert_all,
}
use wall_e_campus_assistant.Outbox.{
  Notification, Notifications, NotificationDraft, NotificationStatus, NotificationType, pending,
  sent, failed, cancelled, same_id, same_value, same_occurrence, conflicts, draft_row, is_pending,
  is_cancelled, is_claimable, in_ids, locked_with, sent_with, failed_with, cancelled_with, updated,
  create_many_ignoring_duplicates, lock_candidates, mark_sent, mark_failed, cancel_overdue,
  cancel_pending_for_schedule, delete_unsent_for_schedule, release_for_delivery, same_type,
  type_index,
}
use wall_e_campus_assistant.Outbox.Inbox.{mark_read, mark_all_read, read_with}
use wall_e_campus_assistant.Outbox.Updates.{
  IsConsistent, IsOutbox, claimable-pending, conflicts_symmetric, KeepsIdentity,
  cancelled-KeepsIdentity, locked-KeepsIdentity, sent-KeepsIdentity, failed-KeepsIdentity,
  read-KeepsIdentity, moved-KeepsIdentity, locked-IsConsistent, sent-IsConsistent, update-IsOutbox,
}

module _ (prisma : Prisma) where
  -- A write of the outbox. The drafts, the times and the reasons are any.
  pub data OutboxStep (rows : Notifications) : Notifications → Type 0 where
    generated :
        {rows' : Notifications} (drafts : List NotificationDraft) (now : ℕ)
        → (create_many_ignoring_duplicates prisma drafts now rows).0 ≡ rows'
        → OutboxStep rows rows'
    overdue :
        {rows' : Notifications} (before : ℕ) (reason : Text)
        → (cancel_overdue prisma before reason rows).0 ≡ rows'
        → OutboxStep rows rows'
    locked :
        {rows' : Notifications} (ids : List ℕ) (now token lock_timeout : ℕ)
        → lock_candidates prisma ids now token lock_timeout rows ≡ rows'
        → OutboxStep rows rows'
    was_sent :
        {rows' : Notifications} (id at : ℕ)
        → mark_sent prisma id at rows ≡ some rows'
        → OutboxStep rows rows'
    was_failed :
        {rows' : Notifications} (id : ℕ) (reason : Text) (give_up : Bool)
        → mark_failed prisma id reason give_up rows ≡ some rows'
        → OutboxStep rows rows'
    schedule_cancelled :
        {rows' : Notifications} (schedule : ℕ) (reason : Text)
        → (cancel_pending_for_schedule prisma schedule reason rows).0 ≡ rows'
        → OutboxStep rows rows'
    schedule_reset :
        {rows' : Notifications} (schedule : ℕ)
        → (delete_unsent_for_schedule prisma schedule rows).0 ≡ rows'
        → OutboxStep rows rows'
    released :
        {rows' : Notifications} (schedule occurrence : ℕ) (types : List NotificationType) (at : ℕ)
        → (release_for_delivery prisma schedule occurrence types at rows).0 ≡ rows'
        → OutboxStep rows rows'
    was_read :
        {rows' : Notifications} (test : Notification → Bool) (at : ℕ)
        → (prisma.update_many Notification test (read_with at) rows).0 ≡ rows'
        → OutboxStep rows rows'

  pub data OutboxReach (rows : Notifications) : Notifications → Type 0 where
    untouched : OutboxReach rows rows
    then_step :
        {rows' rows'' : Notifications}
        → OutboxReach rows rows'
        → OutboxStep rows' rows''
        → OutboxReach rows rows''

  module _ (test : Notification → Bool) (change : Notification → Notification)
      (keeps : KeepsIdentity change)
      (kept : (n : Notification) → test n ≡ true → IsConsistent n → IsConsistent (change n))
      (rows : Notifications) (sound : IsOutbox rows) where
    update_many-IsOutbox : IsOutbox (prisma.update_many Notification test change rows).0
    update_many-IsOutbox =
        subst IsOutbox
          (sym (
            ap (λ (r : Notifications × ℕ). r.0)
              (prisma.update_many_lem Notification test change rows)))
          (update-IsOutbox test change keeps kept rows sound)

    updated-IsOutbox :
        (rows' : Notifications)
        → updated (prisma.update_many Notification test change rows) ≡ some rows'
        → IsOutbox rows'
    updated-IsOutbox rows' h =
        let (before, count) = prisma.update_many Notification test change rows in
        let e : before ≡ rows' = ground arith in subst IsOutbox e update_many-IsOutbox

  cancelled-IsConsistent :
      (reason : Text) (n : Notification) → IsConsistent n → IsConsistent (cancelled_with reason n)
  cancelled-IsConsistent reason n c = record {
    settled = λ h. (refl, refl);
    dated = λ h. cc;
    tried = λ h. absurd (h refl);
  }

  failed-IsConsistent :
      (reason : Text) (give_up : Bool) (n : Notification)
      → IsConsistent n
      → IsConsistent (failed_with reason give_up n)
  failed-IsConsistent reason true n c = record {
    settled = λ h. (refl, refl);
    dated = λ h. cc;
    tried = λ h. absurd (h refl);
  }
  failed-IsConsistent reason false n c = record {
    settled = λ h. (refl, refl);
    dated = λ h. cc;
    tried = λ h. absurd (h refl);
  }

  draft_row-IsConsistent : (now : ℕ) (d : NotificationDraft) → IsConsistent (draft_row now d)
  draft_row-IsConsistent now d = record {
    settled = λ h. (refl, refl);
    dated = λ h. cc;
    tried = λ h. absurd (h refl);
  }

  create_many-IsOutbox :
      (drafts : List NotificationDraft) (now : ℕ) (rows : Notifications)
      → IsOutbox rows
      → IsOutbox (create_many_ignoring_duplicates prisma drafts now rows).0
  unfolding create_many_ignoring_duplicates
  create_many-IsOutbox [] now rows sound = sound
  create_many-IsOutbox (d ∷ drafts) now rows sound =
      let new = map (draft_row now) (d ∷ drafts) in
      subst (λ (r : Notifications × ℕ). IsOutbox r.0)
        (sym (prisma.create_many_lem Notification conflicts new rows))
        (record {
          one_each = Distinct-insert_all conflicts conflicts_symmetric new rows sound.one_each;
          consistent = λ n m. elim (∈-insert_all conflicts new rows n m) [
            | inl k ↦ sound.consistent n k
            | inr (k, _) ↦
                let (x, _, e) = (∈-map_iff (draft_row now) n (d ∷ drafts)).0 k in
                subst IsConsistent (sym e) (draft_row-IsConsistent now x)
          ];
        })

  delete-IsOutbox :
      (test : Notification → Bool) (rows : Notifications)
      → IsOutbox rows
      → IsOutbox (remove_where test rows)
  unfolding remove_where
  delete-IsOutbox test rows sound = record {
    one_each = Distinct-keep conflicts (λ n. not (test n)) rows sound.one_each;
    consistent = λ n m. sound.consistent n ((∈-keep_iff (λ z. not (test z)) n rows).0 m).0;
  }

  OutboxStep-IsOutbox :
      {rows rows' : Notifications} → OutboxStep rows rows' → IsOutbox rows → IsOutbox rows'
  unfolding cancel_overdue lock_candidates mark_sent mark_failed cancel_pending_for_schedule
      delete_unsent_for_schedule release_for_delivery
  OutboxStep-IsOutbox {rows} (generated drafts now e) sound =
      subst IsOutbox e (create_many-IsOutbox drafts now rows sound)
  OutboxStep-IsOutbox {rows} (overdue before reason e) sound = subst IsOutbox e (
      update_many-IsOutbox _ (cancelled_with reason) (cancelled-KeepsIdentity reason)
        (λ n t c. cancelled-IsConsistent reason n c) rows sound)
  OutboxStep-IsOutbox {rows} (locked ids now token lock_timeout e) sound = subst IsOutbox e (
      update_many-IsOutbox _ (locked_with now token) (locked-KeepsIdentity now token)
        (λ n t c.
          locked-IsConsistent now token n (claimable-pending now lock_timeout n (ground arith)) c)
        rows sound)
  OutboxStep-IsOutbox {rows} {rows'} (was_sent id at e) sound =
      updated-IsOutbox _ (sent_with at) (sent-KeepsIdentity at) (λ n t c. sent-IsConsistent at n c)
        rows sound rows' e
  OutboxStep-IsOutbox {rows} {rows'} (was_failed id reason give_up e) sound =
      updated-IsOutbox _ (failed_with reason give_up) (failed-KeepsIdentity reason give_up)
        (λ n t c. failed-IsConsistent reason give_up n c) rows sound rows' e
  OutboxStep-IsOutbox {rows} (schedule_cancelled schedule reason e) sound = subst IsOutbox e (
      update_many-IsOutbox _ (cancelled_with reason) (cancelled-KeepsIdentity reason)
        (λ n t c. cancelled-IsConsistent reason n c) rows sound)
  OutboxStep-IsOutbox {rows} (schedule_reset schedule e) sound =
      subst IsOutbox
        (sym (ap (λ (r : Notifications × ℕ). r.0) (prisma.delete_many_lem Notification _ rows)) ∙ e)
        (delete-IsOutbox _ rows sound)
  OutboxStep-IsOutbox {rows} (released schedule occurrence types at e) sound = subst IsOutbox e (
      update_many-IsOutbox _ (λ n. record n { scheduled_for = at }) moved-KeepsIdentity
        (λ n t c. record { settled = c.settled; dated = c.dated; tried = c.tried }) rows sound)
  OutboxStep-IsOutbox {rows} (was_read test at e) sound = subst IsOutbox e (
      update_many-IsOutbox test (read_with at) (read-KeepsIdentity at)
        (λ n t c. record { settled = c.settled; dated = c.dated; tried = c.tried }) rows sound)

  -- Whatever is generated, claimed, sent, failed, cancelled, reset, released and read, by however
  -- many workers and in whatever order: a person has at most one notification of a type for an
  -- occurrence of a lecture, one that is sent, failed or cancelled is held by nobody, one that is sent
  -- has the date of it, and one that is held has been counted as tried.
  pub OutboxReach-IsOutbox :
      {rows rows' : Notifications} → OutboxReach rows rows' → IsOutbox rows → IsOutbox rows'
  OutboxReach-IsOutbox untouched sound = sound
  OutboxReach-IsOutbox (then_step r st) sound =
      OutboxStep-IsOutbox st (OutboxReach-IsOutbox r sound)
