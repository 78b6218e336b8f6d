-- ===== src/Outbox/Dispatcher/Laws.antt =====
-- That a tick of the dispatcher comes to an end and leaves nothing in between
-- (backend/src/services/notification.dispatcher.ts).
use wall_e_campus_assistant.Prelude.{
  ℕ, ◌+◌, ◌-◌, ◌*◌, ◌≤◌, ◌≡◌, refl, inl, inr, Bool, true, ◌&&◌, Option, some, List, [], ◌∷◌, sym,
  ap, ◌∙◌, subst, arith, Bool-cases, length, ◌==◌, if◌then◌else◌, same_option,
}
use wall_e_campus_assistant.Text.{Text}
use wall_e_campus_assistant.Cohort.Semester.{codes}
use wall_e_campus_assistant.Database.{Prisma}
use wall_e_campus_assistant.Database.Rows.{update_where}
use wall_e_campus_assistant.Database.Rows.Laws.{∈-update_where}
use wall_e_campus_assistant.Session.Window.{minute_ms}
use wall_e_campus_assistant.Outbox.{
  Notification, Notifications, pending, is_pending, same_id, cancelled_with, locked_with,
  cancel_overdue, claim_due, claim_ids, lock_candidates, find_locked_by, find_candidates,
  is_claimable, in_ids, ltb,
}
use wall_e_campus_assistant.Outbox.Dispatcher.{
  PushResult, DeliveryOutcome, retrying, DispatchResult, DispatchConfig, count_outcome, deliver_all,
  tick,
}
use wall_e_campus_assistant.Outbox.Dispatcher.Delivery.{
  IsQueued, IsDrained, Distinct-same_id-update, IsInFlight, deliver-IsDelivered, deliver-IsInFlight,
}

module _ (prisma : Prisma) where
  module _ (push : Notification → PushResult) (config : DispatchConfig) where
    abbrev pub outcomes : DispatchResult → ℕ
    outcomes r = r.sent + r.failed + r.retrying

    count_outcome-outcomes :
        (r : DispatchResult) (o : DeliveryOutcome)
        → (outcomes (count_outcome r o) ≡ outcomes r + 1)
          × ((count_outcome r o).claimed ≡ r.claimed)
    unfolding count_outcome
    count_outcome-outcomes r DeliveryOutcome.sent = omega arith
    count_outcome-outcomes r DeliveryOutcome.failed = omega arith
    count_outcome-outcomes r retrying = omega arith

    -- What a tick that comes to its end returns.
    pub record IsFinished (total claimed : ℕ) (o : Option (Notifications × DispatchResult))
        : Type 0 where
      pub rows : Notifications
      pub result : DispatchResult
      pub returns : o ≡ some (rows, result)
      pub drained : IsDrained config.max_attempts rows
      pub counted : outcomes result ≡ total
      pub claims : result.claimed ≡ claimed

    deliver_all-IsFinished :
        (claimed : List Notification) (now : ℕ) (result : DispatchResult) (rows : Notifications)
        → IsInFlight prisma push config claimed rows
        → IsFinished
            (outcomes result + length claimed)
            result.claimed
            (deliver_all prisma push config claimed now result rows)
    unfolding deliver_all
    deliver_all-IsFinished [] now result rows flight = record {
      rows = rows;
      result = result;
      returns = refl;
      drained = record {
        one_id = flight.one_id;
        queued = λ n m. elim (flight.rest n m) [ inl q ↦ q | inr b ↦ absurd b ];
      };
      counted = omega arith;
      claims = refl;
    }
    deliver_all-IsFinished (c ∷ claimed) now result rows flight =
        let d =
          deliver-IsDelivered prisma push config c now rows (flight.there c (inl refl))
            (flight.bounded c (inl refl)) (push c) refl in
        let rest =
          deliver_all-IsFinished claimed now (count_outcome result d.outcome)
            (update_where (λ n. n.id == c.id) d.change rows)
            (deliver-IsInFlight prisma push config c claimed rows d.change d.keeps d.settles
              flight) in
        let (one_more, same) = count_outcome-outcomes result d.outcome in
        record {
          rows = rest.rows;
          result = rest.result;
          returns = rw (d.returns, deliver_all) rest.returns;
          drained = rest.drained;
          counted = rest.counted ∙ (omega (arith, one_more));
          claims = rest.claims ∙ same;
        }

    cancel_overdue-IsDrained :
        (before : ℕ) (reason : Text) (rows : Notifications)
        → IsDrained config.max_attempts rows
        → IsDrained config.max_attempts (cancel_overdue prisma before reason rows).0
    unfolding cancel_overdue
    cancel_overdue-IsDrained before reason rows drained =
        let test = λ (n : Notification). is_pending n.status && ltb n.scheduled_for before in
        let e =
          ap (λ (r : Notifications × ℕ). r.0)
            (prisma.update_many_lem Notification test (cancelled_with reason) rows) in
        subst (IsDrained config.max_attempts) (sym e) (record {
          one_id =
              Distinct-same_id-update test (cancelled_with reason) (λ n. refl) rows drained.one_id;
          queued = λ n m.
              let (y, k, q) = ∈-update_where test (cancelled_with reason) rows m in
              elim (Bool-cases (test y)) [
                | inl t ↦
                    subst (IsQueued config.max_attempts)
                      (sym (q ∙ ap (λ b. if b then cancelled_with reason y else y) t))
                      ((drained.queued y k).0, λ h. cc)
                | inr t ↦
                    subst (IsQueued config.max_attempts)
                      (sym (q ∙ ap (λ b. if b then cancelled_with reason y else y) t))
                      (drained.queued y k)
              ];
        })

    claimable-pending :
        (now : ℕ) (n : Notification)
        → is_claimable now config.lock_timeout_ms n ≡ true
        → n.status ≡ pending
    unfolding is_claimable
    claimable-pending now n h = ground arith

    claimed-IsInFlight :
        (test : Notification → Bool) (token now : ℕ) (rows : Notifications)
        → IsDrained config.max_attempts rows
        → ((n : Notification) → test n ≡ true → n.status ≡ pending)
        → let mine =
            λ (n : Notification). same_option n.locked_by (some token) && is_pending n.status in
          let rows' = update_where test (locked_with now token) rows in
          IsInFlight prisma push config (prisma.find_all Notification mine rows') rows'
    claimed-IsInFlight test token now rows drained waits =
        let mine =
          λ (n : Notification). same_option n.locked_by (some token) && is_pending n.status in
        let change = locked_with now token in
        let rows' = update_where test change rows in
        let one_id' = Distinct-same_id-update test change (λ n. refl) rows drained.one_id in
        let found = prisma.find_all_iff Notification mine rows' in
        record {
          one_id = one_id';
          once = prisma.find_all_once Notification same_id mine rows' one_id';
          there = λ c m. ((found c).0 m).0;
          bounded = λ c m.
              let (y, k, q) = ∈-update_where test change rows ((found c).0 m).0 in
              let (bound, less) = drained.queued y k in
              elim (Bool-cases (test y)) [
                | inl t ↦
                    let (few, _, _) = less (waits y t) in
                    subst (λ (z : Notification). z.attempts ≤ config.max_attempts)
                      (sym (q ∙ ap (λ b. if b then change y else y) t)) (omega arith)
                | inr t ↦
                    subst (λ (z : Notification). z.attempts ≤ config.max_attempts)
                      (sym (q ∙ ap (λ b. if b then change y else y) t)) bound
              ];
          rest = λ n m.
              let (y, k, q) = ∈-update_where test change rows m in
              elim (Bool-cases (test y)) [
                | inl t ↦
                    let held : n ≡ change y = q ∙ ap (λ b. if b then change y else y) t in
                    let still = waits y t in
                    inr ((found n).1 (m, subst (λ z. mine z ≡ true) (sym held) (ground arith)))
                | inr t ↦ inl (
                    subst (IsQueued config.max_attempts)
                      (sym (q ∙ ap (λ b. if b then change y else y) t)) (drained.queued y k))
              ];
        }

    -- What a claim takes is what it then finds under its token.
    claim_ids-IsInFlight :
        (ids : List ℕ) (now token : ℕ) (rows : Notifications)
        → IsDrained config.max_attempts rows
        → let (rows', claimed) = claim_ids prisma ids now token config.lock_timeout_ms rows in
          IsInFlight prisma push config claimed rows'
    unfolding claim_ids lock_candidates find_locked_by
    claim_ids-IsInFlight [] now token rows drained = record {
      one_id = drained.one_id;
      once = tt;
      there = λ c m. absurd m;
      bounded = λ c m. absurd m;
      rest = λ n m. inl (drained.queued n m);
    }
    claim_ids-IsInFlight (i ∷ ids) now token rows drained =
        let test = λ (n : Notification).
          in_ids (i ∷ ids) n.id && is_claimable now config.lock_timeout_ms n in
        let mine =
          λ (n : Notification). same_option n.locked_by (some token) && is_pending n.status in
        let change = locked_with now token in
        let e =
          ap (λ (r : Notifications × ℕ). r.0)
            (prisma.update_many_lem Notification test change rows) in
        subst
          (λ (l : Notifications).
            IsInFlight prisma push config (prisma.find_all Notification mine l) l)
          (sym e)
          (claimed-IsInFlight test token now rows drained
            (λ n h. claimable-pending now n (ground arith)))

    -- A tick comes to its end whatever the push provider answers or throws. Where between two ticks
    -- nothing is held and each waiting notification has been tried fewer times than the limit, it is
    -- so again after the tick: no row is left locked, none waits that has used up its attempts, and
    -- none is tried more often than the limit; and each that was claimed is counted once.
    pub tick-IsFinished :
        (now token : ℕ) (rows : Notifications)
        → IsDrained config.max_attempts rows
        → (n : ℕ) × IsFinished n n (tick prisma push config now token rows)
    unfolding tick claim_due
    tick-IsFinished now token rows drained =
        let before = now - config.stale_after_minutes * minute_ms in
        let rows' = (cancel_overdue prisma before (codes "Missed its delivery window") rows).0 in
        let ids = find_candidates prisma now config.batch_size config.lock_timeout_ms rows' in
        let flight =
          claim_ids-IsInFlight ids now token rows'
            (cancel_overdue-IsDrained before (codes "Missed its delivery window") rows drained) in
        let (rows'', claimed) = claim_ids prisma ids now token config.lock_timeout_ms rows' in
        let first : DispatchResult = record {
          cancelled = (cancel_overdue prisma before (codes "Missed its delivery window") rows).1;
          claimed = length claimed;
          sent = 0;
          failed = 0;
          retrying = 0;
        } in
        let none_yet : outcomes first + length claimed ≡ length claimed = omega arith in
        (
          length claimed,
          subst
              (λ total.
                IsFinished total (length claimed)
                  (deliver_all prisma push config claimed now first rows''))
              none_yet (deliver_all-IsFinished claimed now first rows'' flight),
        )
