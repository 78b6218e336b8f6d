-- ===== src/Outbox/Steps/Locks.antt =====
-- What the lock of claimDue keeps apart, and what it does not
-- (backend/src/repositories/notification.repository.ts).
use wall_e_campus_assistant.Prelude.{
  ℕ, ◌+◌, ◌≤◌, ◌≡◌, ◌≢◌, refl, true, false, ◌&&◌, some, List, ◌∈◌, sym, ap, ◌∙◌, subst, arith, ◌==◌,
  if◌then◌else◌, ==_refl,
}
use wall_e_campus_assistant.Text.{Text}
use wall_e_campus_assistant.Database.{Prisma}
use wall_e_campus_assistant.Database.Rows.{update_where}
use wall_e_campus_assistant.Database.Rows.Laws.{update_where-∈}
use wall_e_campus_assistant.Database.Rows.Single.{count-pos}
use wall_e_campus_assistant.Outbox.{
  Notification, Notifications, pending, is_claimable, in_ids, locked_with, failed_with, updated,
  lock_candidates, find_locked_by, mark_failed,
}

module _ (prisma : Prisma) where
  held_unclaimable :
      (now lock_timeout at : ℕ) (n : Notification)
      → n.locked_at ≡ some at
      → now ≤ at + lock_timeout
      → is_claimable now lock_timeout n ≡ false
  unfolding is_claimable
  held_unclaimable now lock_timeout at n e h = ground arith

  -- What a dispatcher has locked stays as it is when another claims, whatever candidates that one has
  -- read before, until the time of the lock has passed; and the other does not find it under its own
  -- token.
  pub lock_candidates-excludes :
      (ids : List ℕ) (now token mine at lock_timeout : ℕ) (n : Notification) (rows : Notifications)
      → n ∈ rows
      → n.locked_at ≡ some at
      → n.locked_by ≡ some mine
      → mine ≢ token
      → now ≤ at + lock_timeout
      → (n ∈ lock_candidates prisma ids now token lock_timeout rows)
        × ¬ (
            n
            ∈ find_locked_by prisma token (lock_candidates prisma ids now token lock_timeout rows))
  unfolding lock_candidates find_locked_by
  lock_candidates-excludes ids now token mine at lock_timeout n rows m held by_me other soon =
      let test = λ (z : Notification). in_ids ids z.id && is_claimable now lock_timeout z in
      let change = locked_with now token in
      let busy = held_unclaimable now lock_timeout at n held soon in
      let off : test n ≡ false = ground arith in
      let e =
        ap (λ (r : Notifications × ℕ). r.0)
          (prisma.update_many_lem Notification test change rows) in
      let kept =
        subst (λ z. z ∈ update_where test change rows) (ap (λ b. if b then change n else n) off)
          (update_where-∈ test change rows n m) in
      (
        subst (λ (l : Notifications). n ∈ l) (sym e) kept,
        λ found.
            let (_, t) = (prisma.find_all_iff Notification _ _ n).0 found in other (ground arith),
      )

  -- The update after a failed delivery looks at the id only: whatever has become of the notification
  -- since it was claimed, also if it has been cancelled with its lecture or has been sent by another
  -- dispatcher, it waits again, and is claimed as soon as it is due.
  pub mark_failed-revives :
      (n : Notification) (reason : Text) (now lock_timeout : ℕ) (rows : Notifications)
      → n ∈ rows
      → n.status ≢ pending
      → n.scheduled_for ≤ now
      → (rows' : Notifications) × (mark_failed prisma n.id reason false rows ≡ some rows')
        × (failed_with reason false n ∈ rows')
        × (is_claimable now lock_timeout (failed_with reason false n) ≡ true)
  unfolding mark_failed is_claimable
  mark_failed-revives n reason now lock_timeout rows m settled due =
      let test = λ (z : Notification). z.id == n.id in
      let change = failed_with reason false in
      let there = count-pos test rows n m (==_refl n.id) in
      (
        update_where test change rows,
        ap updated (prisma.update_many_lem Notification test change rows) ∙ (rw there refl),
        subst (λ z. z ∈ update_where test change rows)
            (ap (λ b. if b then change n else n) (==_refl n.id))
            (update_where-∈ test change rows n m),
        ground arith,
      )
