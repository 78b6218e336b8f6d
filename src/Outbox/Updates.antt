-- ===== src/Outbox/Updates.antt =====
-- What an update of the outbox must keep for its rows to stay consistent
-- (backend/src/repositories/notification.repository.ts).
use wall_e_campus_assistant.Prelude.{
  ℕ, ◌<◌, ◌≡◌, ◌≢◌, refl, inl, inr, Bool, true, Option, some, none, ◌∈◌, sym, ap, ◌∙◌, subst, arith,
  Bool-cases, ◌==◌, if◌then◌else◌,
}
use wall_e_campus_assistant.Text.{Text}
use wall_e_campus_assistant.Database.Rows.{update_where}
use wall_e_campus_assistant.Database.Rows.Laws.{Distinct, Distinct-update_apart, ∈-update_where}
use wall_e_campus_assistant.Outbox.{
  Notification, Notifications, pending, sent, same_value, same_occurrence, conflicts, is_claimable,
  locked_with, sent_with, failed_with, cancelled_with, type_index,
}
use wall_e_campus_assistant.Outbox.Inbox.{read_with}

-- A notification that is settled is held by nobody, one that was sent has a date, and one that is
-- held has been tried.
pub record IsConsistent (n : Notification) : Type 0 where
  pub settled : n.status ≢ pending → (n.locked_at ≡ none) × (n.locked_by ≡ none)
  pub dated : n.status ≡ sent → n.sent_at ≢ none
  pub tried : n.locked_by ≢ none → 0 < n.attempts

-- Of two rows no id is the same, and no lecture's occurrence, person and type.
pub record IsOutbox (rows : Notifications) : Type 0 where
  pub one_each : Distinct conflicts rows
  pub consistent : (n : Notification) → n ∈ rows → IsConsistent n

==_symmetric : (a b : ℕ) → (a == b) ≡ (b == a)
==_symmetric a b = ground arith

pending≢sent : pending ≢ sent
pending≢sent h = cc

pub claimable-pending :
    (now lock_timeout : ℕ) (n : Notification)
    → is_claimable now lock_timeout n ≡ true
    → n.status ≡ pending
unfolding is_claimable
claimable-pending now lock_timeout n h = ground arith

same_value_symmetric : (a b : Option ℕ) → same_value a b ≡ same_value b a
same_value_symmetric none none = refl
same_value_symmetric none (some b) = refl
same_value_symmetric (some a) none = refl
same_value_symmetric (some a) (some b) = ground arith

pub conflicts_symmetric : (a b : Notification) → conflicts a b ≡ conflicts b a
unfolding same_occurrence
conflicts_symmetric a b = rw (
  ==_symmetric a.id b.id,
  ==_symmetric a.user_id b.user_id,
  same_value_symmetric a.lecture_schedule_id b.lecture_schedule_id,
  same_value_symmetric a.occurrence_starts_at b.occurrence_starts_at,
  ==_symmetric (type_index a.type_) (type_index b.type_),
)

-- What an update may not change.
pub record KeepsIdentity (change : Notification → Notification) : Type 0 where
  pub id_ : (n : Notification) → (change n).id ≡ n.id
  pub user : (n : Notification) → (change n).user_id ≡ n.user_id
  pub schedule : (n : Notification) → (change n).lecture_schedule_id ≡ n.lecture_schedule_id
  pub occurrence : (n : Notification) → (change n).occurrence_starts_at ≡ n.occurrence_starts_at
  pub kind : (n : Notification) → (change n).type_ ≡ n.type_

pub cancelled-KeepsIdentity : (reason : Text) → KeepsIdentity (cancelled_with reason)
cancelled-KeepsIdentity reason = record {
  id_ = λ n. refl;
  user = λ n. refl;
  schedule = λ n. refl;
  occurrence = λ n. refl;
  kind = λ n. refl;
}

pub locked-KeepsIdentity : (now token : ℕ) → KeepsIdentity (locked_with now token)
locked-KeepsIdentity now token = record {
  id_ = λ n. refl;
  user = λ n. refl;
  schedule = λ n. refl;
  occurrence = λ n. refl;
  kind = λ n. refl;
}

pub sent-KeepsIdentity : (at : ℕ) → KeepsIdentity (sent_with at)
sent-KeepsIdentity at = record {
  id_ = λ n. refl;
  user = λ n. refl;
  schedule = λ n. refl;
  occurrence = λ n. refl;
  kind = λ n. refl;
}

pub failed-KeepsIdentity :
    (reason : Text) (give_up : Bool) → KeepsIdentity (failed_with reason give_up)
failed-KeepsIdentity reason give_up = record {
  id_ = λ n. refl;
  user = λ n. refl;
  schedule = λ n. refl;
  occurrence = λ n. refl;
  kind = λ n. refl;
}

pub read-KeepsIdentity : (at : ℕ) → KeepsIdentity (read_with at)
read-KeepsIdentity at = record {
  id_ = λ n. refl;
  user = λ n. refl;
  schedule = λ n. refl;
  occurrence = λ n. refl;
  kind = λ n. refl;
}

pub moved-KeepsIdentity : {at : ℕ} → KeepsIdentity (λ n. record n { scheduled_for = at })
moved-KeepsIdentity = record {
  id_ = λ n. refl;
  user = λ n. refl;
  schedule = λ n. refl;
  occurrence = λ n. refl;
  kind = λ n. refl;
}

pub locked-IsConsistent :
    (now token : ℕ) (n : Notification)
    → n.status ≡ pending
    → IsConsistent n
    → IsConsistent (locked_with now token n)
locked-IsConsistent now token n waits c = record {
  settled = λ h. absurd (h waits);
  dated = λ h. absurd (pending≢sent (sym waits ∙ h));
  tried = λ h. omega arith;
}

pub sent-IsConsistent : (at : ℕ) (n : Notification) → IsConsistent n → IsConsistent (sent_with at n)
sent-IsConsistent at n c = record {
  settled = λ h. (refl, refl);
  dated = λ h e. cc;
  tried = λ h. absurd (h refl);
}

module _ (test : Notification → Bool) (change : Notification → Notification)
    (keeps : KeepsIdentity change)
    (kept : (n : Notification) → test n ≡ true → IsConsistent n → IsConsistent (change n)) where
  abbrev after : Notification → Notification
  after n = if test n then change n else n

  same_identity : (a b : Notification) → conflicts (change a) b ≡ conflicts a b
  unfolding same_occurrence
  same_identity a b =
      rw (keeps.id_ a, keeps.user a, keeps.schedule a, keeps.occurrence a, keeps.kind a)

  after-conflicts : (a b : Notification) → conflicts (after a) b ≡ conflicts a b
  after-conflicts a b = elim (Bool-cases (test a)) [
    | inl t ↦ rw t (same_identity a b)
    | inr t ↦ rw t
  ]

  pub update-IsOutbox :
      (rows : Notifications) → IsOutbox rows → IsOutbox (update_where test change rows)
  update-IsOutbox rows sound = record {
    one_each =
        Distinct-update_apart conflicts test change
          (λ a b h.
            sym (after-conflicts a b)
            ∙ conflicts_symmetric (after a) b
            ∙ sym (after-conflicts b (after a))
            ∙ conflicts_symmetric (after b) (after a)
            ∙ h)
          rows sound.one_each;
    consistent = λ n m.
        let (y, k, q) = ∈-update_where test change rows m in
        elim (Bool-cases (test y)) [
          | inl t ↦
              subst IsConsistent (sym (q ∙ ap (λ b. if b then change y else y) t))
                (kept y t (sound.consistent y k))
          | inr t ↦
              subst IsConsistent (sym (q ∙ ap (λ b. if b then change y else y) t))
                (sound.consistent y k)
        ];
  }
