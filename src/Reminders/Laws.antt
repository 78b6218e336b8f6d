-- ===== src/Reminders/Laws.antt =====
-- Which reminders are drafted (backend/src/services/lecture-notification.service.ts).
use wall_e_campus_assistant.Prelude.{
  ℕ, ◌*◌, ◌≡◌, ◌↔◌, refl, inl, inr, false, List, [], ◌∷◌, ◌∈◌, sym, subst, false≢true, Bool-cases,
  ∈-append, ∈-map_iff,
}
use wall_e_campus_assistant.Outbox.{NotificationDraft}
use wall_e_campus_assistant.Occurrence.{TimeZone}
use wall_e_campus_assistant.Session.Window.{minute_ms}
use wall_e_campus_assistant.Reminders.{
  ReminderAudience, ReminderRule, ScheduleForReminders, Timing, NewId, is_past, draft_for,
  drafts_of_rule, drafts_of_rules, drafts_of,
}

module _ (zone : TimeZone) (new_id : NewId) (l : ScheduleForReminders)
    (recipients : ReminderAudience → List ℕ) (timing : Timing) where
  -- A reminder of a rule, at an occurrence, to a person.
  abbrev IsDraftOf : ℕ → ReminderRule → NotificationDraft → Type 0
  IsDraftOf starts_at rule d =
      (is_past timing.not_before starts_at (rule.minutes_before * minute_ms) ≡ false)
      × ((user : ℕ) × (user ∈ recipients rule.audience)
          × (d ≡ draft_for zone new_id l timing starts_at rule user))

  of_rule_iff :
      (starts_at : ℕ) (rule : ReminderRule) (d : NotificationDraft)
      → (d ∈ drafts_of_rule zone new_id l recipients timing starts_at rule)
        ↔ IsDraftOf starts_at rule d
  of_rule_iff starts_at rule d =
      let (to, from) =
        ∈-map_iff (draft_for zone new_id l timing starts_at rule) d (recipients rule.audience) in
      elim (Bool-cases (is_past timing.not_before starts_at (rule.minutes_before * minute_ms))) [
        | inl e ↦ rw e (λ m. absurd m, λ (past, _). absurd (false≢true (sym past)))
        | inr e ↦ rw e (λ m. (refl, to m), λ (_, h). from h)
      ]

  of_rules_iff :
      (starts_at : ℕ) (rules : List ReminderRule) (d : NotificationDraft)
      → (d ∈ drafts_of_rules zone new_id l recipients timing starts_at rules)
        ↔ ((rule : ReminderRule) × (rule ∈ rules) × IsDraftOf starts_at rule d)
  unfolding drafts_of_rules
  of_rules_iff starts_at [] d = (λ m. absurd m, λ (rule, m, h). absurd m)
  of_rules_iff starts_at (rule ∷ rules) d =
      let here = of_rule_iff starts_at rule d in
      let there = of_rules_iff starts_at rules d in
      let split =
        ∈-append d (drafts_of_rule zone new_id l recipients timing starts_at rule)
          (drafts_of_rules zone new_id l recipients timing starts_at rules) in
      (
        λ m. elim (split.0 m) [
          | inl k ↦ (rule, inl refl, here.0 k)
          | inr k ↦ let (r, k', h) = there.0 k in (r, inr k', h)
        ],
        λ (r, m, h). elim m [
          | inl e ↦ split.1 (inl (here.1 (subst (λ z. IsDraftOf starts_at z d) e h)))
          | inr k ↦ split.1 (inr (there.1 (r, k, h)))
        ],
      )

  pub ∈-drafts_of_iff :
      (rules : List ReminderRule) (occurrences : List ℕ) (d : NotificationDraft)
      → (d ∈ drafts_of zone new_id l recipients timing rules occurrences) ↔ (
          (starts_at : ℕ) × (starts_at ∈ occurrences)
          × ((rule : ReminderRule) × (rule ∈ rules) × IsDraftOf starts_at rule d))
  unfolding drafts_of
  ∈-drafts_of_iff rules [] d = (λ m. absurd m, λ (t, m, h). absurd m)
  ∈-drafts_of_iff rules (t ∷ occurrences) d =
      let here = of_rules_iff t rules d in
      let there = ∈-drafts_of_iff rules occurrences d in
      let split =
        ∈-append d (drafts_of_rules zone new_id l recipients timing t rules)
          (drafts_of zone new_id l recipients timing rules occurrences) in
      (
        λ m. elim (split.0 m) [
          | inl k ↦ (t, inl refl, here.0 k)
          | inr k ↦ let (t', k', h) = there.0 k in (t', inr k', h)
        ],
        λ (t', m, h). elim m [
          | inl e ↦ split.1 (
              inl (
                here.1
                  (subst (λ z. (rule : ReminderRule) × (rule ∈ rules) × IsDraftOf z rule d) e h)))
          | inr k ↦ split.1 (inr (there.1 (t', k, h)))
        ],
      )
