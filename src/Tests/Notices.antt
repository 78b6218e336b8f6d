-- ===== src/Tests/Notices.antt =====
-- An outbox with two notifications of a morning lecture.
use wall_e_campus_assistant.Prelude.{
  ℕ, ◌+◌, ◌*◌, ◌≡◌, ◌≢◌, refl, inl, inr, some, none, [], ◌∷◌, ◌∈◌, arith, true, false, subst, sym,
}
use wall_e_campus_assistant.Cohort.Semester.{codes}
use wall_e_campus_assistant.Database.Reference.{reference}
use wall_e_campus_assistant.Database.Rows.{update_where}
use wall_e_campus_assistant.Outbox.{
  Notification, Notifications, pending, cancelled, lecture_student_10m, failed_with, mark_failed,
  lock_candidates, find_locked_by, is_claimable, same_occurrence,
}
use wall_e_campus_assistant.Outbox.Dispatcher.{PushResult, thrown, DispatchConfig, tick}
use wall_e_campus_assistant.Outbox.Dispatcher.Delivery.{IsDrained}
use wall_e_campus_assistant.Outbox.Dispatcher.Laws.{IsFinished, tick-IsFinished}
use wall_e_campus_assistant.Outbox.Steps.{
  OutboxReach, untouched, then_step, locked, OutboxReach-IsOutbox,
}
use wall_e_campus_assistant.Outbox.Updates.{IsOutbox, IsConsistent}
use wall_e_campus_assistant.Outbox.Steps.Locks.{lock_candidates-excludes, mark_failed-revives}
use wall_e_campus_assistant.Tests.{nine, minute_ms}

abbrev pub waiting : Notification
waiting = record {
  id = 1;
  organization_id = 1;
  user_id = 30;
  lecture_schedule_id = some 7;
  occurrence_starts_at = some (nine + 10 * minute_ms);
  type_ = lecture_student_10m;
  title = codes "Lecture starting soon";
  body = codes "Logic";
  scheduled_for = nine;
  sent_at = none;
  read_at = none;
  status = pending;
  failure_reason = none;
  attempts = 0;
  locked_at = none;
  locked_by = none;
  created_at = nine;
}

abbrev called_off : Notification
called_off = record waiting {
  id = 2;
  user_id = 31;
  status = cancelled;
  failure_reason = some (codes "The lecture was cancelled");
}

abbrev outbox : Notifications
outbox = waiting ∷ called_off ∷ []

-- No phone can be reached.
abbrev some_phones : Notification → PushResult
some_phones n = thrown (codes "timeout")

abbrev dispatch_config : DispatchConfig
dispatch_config = record {
  batch_size = 100;
  stale_after_minutes = 60;
  max_attempts = 3;
  lock_timeout_ms = 5 * minute_ms;
}

waiting-IsConsistent : IsConsistent waiting
waiting-IsConsistent = record {
  settled = λ h. absurd (h refl);
  dated = λ h. cc;
  tried = λ h. absurd (h refl);
}

called_off-IsConsistent : IsConsistent called_off
called_off-IsConsistent = record {
  settled = λ h. (refl, refl);
  dated = λ h. cc;
  tried = λ h. absurd (h refl);
}

outbox-IsOutbox : IsOutbox outbox
unfolding same_occurrence
outbox-IsOutbox = record {
  one_each = (refl, (refl, tt));
  consistent = λ n m. elim m [
    | inl e ↦ subst IsConsistent (sym e) waiting-IsConsistent
    | inr k ↦ elim k [
      | inl e ↦ subst IsConsistent (sym e) called_off-IsConsistent
      | inr b ↦ absurd b
    ]
  ];
}

outbox-IsDrained : IsDrained 3 outbox
outbox-IsDrained = record {
  one_id = (refl, (refl, tt));
  queued = λ n m. elim m [
    | inl e ↦ rw e (omega arith, λ h. (omega arith, refl, refl))
    | inr k ↦ elim k [ inl e ↦ rw e (omega arith, λ h. cc) | inr b ↦ absurd b ]
  ];
}

tick-IsFinished_example :
    (n : ℕ) × IsFinished reference some_phones dispatch_config n n
      (tick reference some_phones dispatch_config nine 9 outbox)
tick-IsFinished_example =
    tick-IsFinished reference some_phones dispatch_config nine 9 outbox outbox-IsDrained

-- One dispatcher has claimed the first.
abbrev held : Notification
held = record waiting { attempts = 1; locked_at = some nine; locked_by = some 8 }

claimed : OutboxReach reference outbox (held ∷ called_off ∷ [])
unfolding lock_candidates is_claimable update_where
claimed = then_step untouched (locked (1 ∷ 2 ∷ []) nine 8 (5 * minute_ms) refl)

OutboxReach-IsOutbox_example : IsOutbox (held ∷ called_off ∷ [])
OutboxReach-IsOutbox_example = OutboxReach-IsOutbox reference claimed outbox-IsOutbox

lock_candidates-excludes_example :
    (held
      ∈ lock_candidates reference
          (1 ∷ 2 ∷ [])
          (nine + minute_ms)
          9
          (5 * minute_ms)
          (held ∷ called_off ∷ []))
    × ¬ (
        held
        ∈ find_locked_by reference 9 (
            lock_candidates reference
              (1 ∷ 2 ∷ [])
              (nine + minute_ms)
              9
              (5 * minute_ms)
              (held ∷ called_off ∷ [])))
lock_candidates-excludes_example =
    lock_candidates-excludes reference (1 ∷ 2 ∷ []) (nine + minute_ms) 9 8 nine (5 * minute_ms) held
      (held ∷ called_off ∷ []) (inl refl) refl refl (omega arith) (omega arith)

cancelled≢pending : cancelled ≢ pending
cancelled≢pending h = cc

mark_failed-revives_example :
    (rows' : Notifications) × (mark_failed reference 2 (codes "timeout") false outbox ≡ some rows')
    × (failed_with (codes "timeout") false called_off ∈ rows')
    × (is_claimable nine minute_ms (failed_with (codes "timeout") false called_off) ≡ true)
mark_failed-revives_example =
    mark_failed-revives reference called_off (codes "timeout") nine minute_ms outbox
      (inr (inl refl)) cancelled≢pending (omega arith)
