-- ===== src/Timetable/Notices.antt =====
-- What becomes of a lecture's notifications when backend/src/services/schedule.service.ts changes the
-- lecture or calls it off.
use wall_e_campus_assistant.Prelude.{
  ℕ, ◌≡◌, ◌≢◌, ◌⊎◌, ◌↔◌, refl, inl, inr, Bool, true, not, ◌&&◌, ◌||◌, Option, some, none, ◌∈◌, sym,
  ap, ◌∙◌, subst, arith, Bool-cases, same_option, is_none, ok, if◌then◌else◌, ∈-keep_iff,
}
use wall_e_campus_assistant.Cohort.Semester.{codes}
use wall_e_campus_assistant.Database.{Prisma}
use wall_e_campus_assistant.Database.Rows.{remove_where}
use wall_e_campus_assistant.Database.Rows.Laws.{∈-update_where}
use wall_e_campus_assistant.Session.Store.{LectureSchedule}
use wall_e_campus_assistant.Outbox.{
  Notification, Notifications, NotificationStatus, pending, sent, failed, cancelled, is_pending,
  is_cancelled, cancelled_with, delete_unsent_for_schedule, cancel_pending_for_schedule,
}
use wall_e_campus_assistant.Timetable.{TimetableDb}
use wall_e_campus_assistant.Timetable.Laws.{update_schedule-ok}
use wall_e_campus_assistant.Timetable.Service.{
  UpdateScheduleInput, load_in_org, update_schedule, deactivate_schedule,
}

-- A notification of the lecture that was not sent and is to be made again.
pub record IsUnsentOf (id : ℕ) (n : Notification) : Type 0 where
  pub of_lecture : n.lecture_schedule_id ≡ some id
  pub unsent : n.sent_at ≡ none
  pub waits : (n.status ≡ pending) ⊎ (n.status ≡ cancelled)

unsent_test : ℕ → Notification → Bool
unsent_test id n =
    same_option n.lecture_schedule_id (some id)
    && is_none n.sent_at
    && (is_pending n.status || is_cancelled n.status)

same_option-some : (a : Option ℕ) (b : ℕ) → (same_option a (some b) ≡ true) ↔ (a ≡ some b)
same_option-some none b = (λ h. cc, λ h. cc)
same_option-some (some a) b = (λ h. ground arith, λ h. ground arith)

open_iff :
    (s : NotificationStatus)
    → ((is_pending s || is_cancelled s) ≡ true) ↔ ((s ≡ pending) ⊎ (s ≡ cancelled))
open_iff pending = (λ h. inl refl, λ h. refl)
open_iff cancelled = (λ h. inr refl, λ h. refl)
open_iff sent = (λ h. cc, λ h. elim h [ inl e ↦ cc | inr e ↦ cc ])
open_iff failed = (λ h. cc, λ h. elim h [ inl e ↦ cc | inr e ↦ cc ])

is_none_iff : {A : Type 0} (o : Option A) → (is_none o ≡ true) ↔ (o ≡ none)
is_none_iff none = (λ h. refl, λ h. refl)
is_none_iff (some a) = (λ h. cc, λ h. cc)

unsent_test_iff : (id : ℕ) (n : Notification) → (unsent_test id n ≡ true) ↔ IsUnsentOf id n
unfolding unsent_test
unsent_test_iff id n =
    let a = same_option-some n.lecture_schedule_id id in
    let b = is_none_iff n.sent_at in
    let c = open_iff n.status in
    (
      λ h. record {
        of_lecture = a.0 (ground arith);
        unsent = b.0 (ground arith);
        waits = c.0 (ground arith);
      },
      λ u. let p = a.1 u.of_lecture in let q = b.1 u.unsent in let r = c.1 u.waits in ground arith,
    )

module _ (prisma : Prisma) where
  -- When a lecture is changed, its notifications that were not sent and wait or were called off go, to
  -- be made again at the new hours, and no other notification is touched.
  pub update_schedule-notifications :
      (id : ℕ) (input : UpdateScheduleInput) (organization_id : ℕ) (db db' : TimetableDb)
      → update_schedule prisma id input organization_id db ≡ ok db'
      → (n : Notification) → (n ∈ db'.notifications) ↔ ((n ∈ db.notifications) × ¬ IsUnsentOf id n)
  unfolding delete_unsent_for_schedule unsent_test remove_where
  update_schedule-notifications id input organization_id db db' h n =
      let (_, _, _, _, _, written) = update_schedule-ok prisma id input organization_id db db' h in
      let e = ap (λ (z : TimetableDb). z.notifications) written in
      let q =
        sym (
          ap (λ (r : Notifications × ℕ). r.0)
            (prisma.delete_many_lem Notification (unsent_test id) db.notifications))
        ∙ e in
      let iff = unsent_test_iff id n in
      let (to, from) = ∈-keep_iff (λ z. not (unsent_test id z)) n db.notifications in
      (
        λ m.
            let (k, t) = to (subst (λ z. n ∈ z) (sym q) m) in
            (k, λ u. let w = iff.1 u in ground arith),
        λ (k, not_unsent).
            subst (λ z. n ∈ z) q
              (from (
                k,
                elim (Bool-cases (unsent_test id n)) [
                  | inl t ↦ absurd (not_unsent (iff.0 t))
                  | inr t ↦ ap not t
                ],
              )),
      )

  -- When a lecture that was held is called off, none of its notifications is left to be sent.
  pub deactivate_schedule_silences :
      (id organization_id : ℕ) (db db' : TimetableDb) (existing : LectureSchedule)
      → load_in_org prisma id organization_id db ≡ ok existing
      → existing.is_active ≡ true
      → deactivate_schedule prisma id organization_id db ≡ ok db'
      → (n : Notification) → n ∈ db'.notifications
      → n.lecture_schedule_id ≡ some id
      → n.status ≢ pending
  unfolding deactivate_schedule cancel_pending_for_schedule
  deactivate_schedule_silences id organization_id db db' existing here on h n m of_lecture waits =
      let test =
        λ (z : Notification). same_option z.lecture_schedule_id (some id) && is_pending z.status in
      let change = cancelled_with (codes "The lecture was cancelled") in
      let e : (prisma.update_many Notification test change db.notifications).0 ≡ db'.notifications =
        ground arith in
      let q =
        sym (
          ap (λ (r : Notifications × ℕ). r.0)
            (prisma.update_many_lem Notification test change db.notifications))
        ∙ e in
      let (y, k, w) = ∈-update_where test change db.notifications (subst (λ z. n ∈ z) (sym q) m) in
      elim (Bool-cases (test y)) [
        | inl t ↦
            let s = w ∙ ap (λ b. if b then change y else y) t in
            let bad : cancelled ≡ pending = sym (ap (λ (z : Notification). z.status) s) ∙ waits in
            cc
        | inr t ↦
            let s = w ∙ ap (λ b. if b then change y else y) t in
            let a =
              (same_option-some y.lecture_schedule_id id).1
                (ap (λ (z : Notification). z.lecture_schedule_id) (sym s) ∙ of_lecture) in
            let b : y.status ≡ pending = ap (λ (z : Notification). z.status) (sym s) ∙ waits in
            ground arith
      ]
