-- ===== src/Outbox/Dispatcher/Delivery.antt =====
-- What one delivery of a tick does to the outbox
-- (backend/src/services/notification.dispatcher.ts).
use wall_e_campus_assistant.Prelude.{
  ℕ, ◌≤◌, ◌<◌, ◌≡◌, ◌⊎◌, refl, inl, inr, Bool, true, false, some, none, List, ◌∷◌, ◌∈◌, sym, ap,
  ◌∙◌, subst, arith, Bool-cases, any-false, ◌==◌, if◌then◌else◌, false≢true, ==_refl,
}
use wall_e_campus_assistant.Text.{Text}
use wall_e_campus_assistant.Database.{Prisma}
use wall_e_campus_assistant.Database.Rows.{update_where}
use wall_e_campus_assistant.Database.Rows.Laws.{
  Distinct, Distinct-unique, Distinct-update_apart, ∈-update_where, update_where-∈,
}
use wall_e_campus_assistant.Database.Rows.Single.{count-pos}
use wall_e_campus_assistant.Outbox.{
  Notification, Notifications, pending, same_id, sent_with, failed_with, updated, mark_sent,
  mark_failed,
}
use wall_e_campus_assistant.Outbox.Dispatcher.{
  PushResult, delivered, rejected, thrown, DeliveryOutcome, retrying, DispatchConfig, last_chance,
  caught, deliver_result, deliver,
}

pub same_id_symmetric : (a b : Notification) → same_id a b ≡ same_id b a
same_id_symmetric a b = ground arith

-- A notification between two ticks: it has been tried at most so often, and if it is still to be
-- sent, then less often, and nobody holds it.
abbrev pub IsQueued : ℕ → Notification → Type 0
IsQueued max n =
    (n.attempts ≤ max)
    × (n.status ≡ pending → (n.attempts < max) × (n.locked_at ≡ none) × (n.locked_by ≡ none))

pub record IsDrained (max : ℕ) (rows : Notifications) : Type 0 where
  pub one_id : Distinct same_id rows
  pub queued : (n : Notification) → n ∈ rows → IsQueued max n

-- An update that keeps ids keeps them distinct.
pub Distinct-same_id-update :
    (test : Notification → Bool) (change : Notification → Notification)
    → ((n : Notification) → (change n).id ≡ n.id)
    → (rows : Notifications) → Distinct same_id rows
    → Distinct same_id (update_where test change rows)
Distinct-same_id-update test change keeps =
    Distinct-update_apart same_id test change
      (λ a b h. let p = keeps a in let q = keeps b in ground arith)

module _ (prisma : Prisma) where
  -- The update of one row that is there.
  updated-∈ :
      (c : Notification) (change : Notification → Notification) (rows : Notifications)
      → c ∈ rows
      → updated (prisma.update_many Notification (λ n. n.id == c.id) change rows)
        ≡ some (update_where (λ n. n.id == c.id) change rows)
  updated-∈ c change rows m =
      let there = count-pos (λ (n : Notification). n.id == c.id) rows c m (==_refl c.id) in
      ap updated (prisma.update_many_lem Notification (λ n. n.id == c.id) change rows)
      ∙ (rw there refl)

  module _ (push : Notification → PushResult) (config : DispatchConfig) where
    -- What a delivery writes to the row that was claimed.
    pub record IsDelivered (c : Notification) (now : ℕ) (rows : Notifications) : Type 0 where
      pub change : Notification → Notification
      pub outcome : DeliveryOutcome
      pub keeps : (n : Notification) → (change n).id ≡ n.id
      pub settles : IsQueued config.max_attempts (change c)
      pub returns :
          deliver prisma push config c now rows
          ≡ some (update_where (λ n. n.id == c.id) change rows, outcome)

    caught-IsQueued :
        (c : Notification) (reason : Text) (b : Bool)
        → last_chance prisma push config c ≡ b
        → c.attempts ≤ config.max_attempts
        → IsQueued config.max_attempts (failed_with reason b c)
    caught-IsQueued c reason true e bound = (bound, λ h. cc)
    caught-IsQueued c reason false e bound = (bound, λ h. (ground arith, refl, refl))

    pub deliver-IsDelivered :
        (c : Notification) (now : ℕ) (rows : Notifications)
        → c ∈ rows
        → c.attempts ≤ config.max_attempts
        → (r : PushResult) → push c ≡ r
        → IsDelivered c now rows
    unfolding deliver deliver_result mark_sent mark_failed caught
    deliver-IsDelivered c now rows m bound delivered e = record {
      change = sent_with now;
      outcome = DeliveryOutcome.sent;
      keeps = λ n. refl;
      settles = (bound, λ h. cc);
      returns = rw (e, updated-∈ c (sent_with now) rows m) refl;
    }
    deliver-IsDelivered c now rows m bound (rejected detail) e = record {
      change = failed_with detail true;
      outcome = DeliveryOutcome.failed;
      keeps = λ n. refl;
      settles = (bound, λ h. cc);
      returns = rw (e, updated-∈ c (failed_with detail true) rows m) refl;
    }
    deliver-IsDelivered c now rows m bound (thrown reason) e =
        let last = last_chance prisma push config c in
        record {
          change = failed_with reason last;
          outcome = (if last then DeliveryOutcome.failed else retrying);
          keeps = λ n. refl;
          settles = caught-IsQueued c reason last refl bound;
          returns = rw (e, updated-∈ c (failed_with reason last) rows m) refl;
        }

    -- Between two deliveries of a tick: what is not settled is still to be delivered.
    pub record IsInFlight (claimed : List Notification) (rows : Notifications) : Type 0 where
      pub one_id : Distinct same_id rows
      pub once : Distinct same_id claimed
      pub there : (c : Notification) → c ∈ claimed → c ∈ rows
      pub bounded : (c : Notification) → c ∈ claimed → c.attempts ≤ config.max_attempts
      pub rest : (n : Notification) → n ∈ rows → IsQueued config.max_attempts n ⊎ (n ∈ claimed)

    pub deliver-IsInFlight :
        (c : Notification) (claimed : List Notification) (rows : Notifications)
        (change : Notification → Notification)
        → ((n : Notification) → (change n).id ≡ n.id)
        → IsQueued config.max_attempts (change c)
        → IsInFlight (c ∷ claimed) rows
        → IsInFlight claimed (update_where (λ n. n.id == c.id) change rows)
    deliver-IsInFlight c claimed rows change keeps settles flight =
        let test = λ (n : Notification). n.id == c.id in
        let (apart, once') = flight.once in
        record {
          one_id = Distinct-same_id-update test change keeps rows flight.one_id;
          once = once';
          there = λ d m.
              let other = any-false (same_id c) claimed apart m in
              let off : test d ≡ false = ground arith in
              subst (λ z. z ∈ update_where test change rows)
                (ap (λ b. if b then change d else d) off)
                (update_where-∈ test change rows d (flight.there d (inr m)));
          bounded = λ d m. flight.bounded d (inr m);
          rest = λ n m.
              let (y, k, q) = ∈-update_where test change rows m in
              elim (Bool-cases (test y)) [
                | inl t ↦
                    let same =
                      Distinct-unique same_id same_id_symmetric rows c y flight.one_id
                        (flight.there c (inl refl)) k (ground arith) in
                    let is_c : change c ≡ n =
                      ap change same ∙ sym (q ∙ ap (λ b. if b then change y else y) t) in
                    inl (subst (IsQueued config.max_attempts) is_c settles)
                | inr t ↦
                    let is_y : y ≡ n = sym (q ∙ ap (λ b. if b then change y else y) t) in
                    elim (flight.rest y k) [
                      | inl ready ↦ inl (subst (IsQueued config.max_attempts) is_y ready)
                      | inr claimed_ ↦ elim claimed_ [
                        | inl e ↦
                            absurd (
                              false≢true
                                (sym t ∙ subst (λ z. test z ≡ true) (sym e) (==_refl c.id)))
                        | inr later ↦ inr (subst (λ z. z ∈ claimed) is_y later)
                      ]
                    ]
              ];
        }
