-- ===== src/Reminders/Covered.antt =====
-- What becomes of the drafts of a run of the generator (generateUpcoming of backend/src/services/lecture-notification.service.ts).
use wall_e_campus_assistant.Prelude.{
  ℕ, ◌≡◌, refl, inl, inr, Bool, true, List, [], ◌∷◌, ◌∈◌, sym, ap, ◌∙◌, subst, arith, Bool-cases,
  ∈-map_iff, any_iff, map, any,
}
use wall_e_campus_assistant.Database.{Prisma}
use wall_e_campus_assistant.Database.Rows.{insert_all, insert_new}
use wall_e_campus_assistant.Database.Rows.Laws.{insert_all-∈, insert_all-covers}
use wall_e_campus_assistant.Session.Store.{Db}
use wall_e_campus_assistant.Outbox.{
  Notification, Notifications, NotificationDraft, same_occurrence, same_id, conflicts, draft_row,
  create_many_ignoring_duplicates,
}
use wall_e_campus_assistant.Occurrence.{TimeZone}
use wall_e_campus_assistant.Reminders.{
  ScheduleForReminders, ReminderTables, NewId, upcoming_drafts, generate_each, generate_upcoming,
  find_active_for_reminders,
}

self_conflict : (n : Notification) → conflicts n n ≡ true
self_conflict n = ground arith

-- Rows of which each is in conflict with one that is there are all skipped.
insert_all-none :
    {A : Type 0} (conflict : A → A → Bool) (new rows : List A)
    → ((x : A) → x ∈ new → any (conflict x) rows ≡ true)
    → insert_all conflict new rows ≡ (rows, 0)
unfolding insert_all insert_new
insert_all-none conflict [] rows h = refl
insert_all-none conflict (r ∷ new) rows h =
    let rest = insert_all-none conflict new rows (λ x m. h x (inr m)) in
    rw (h r (inl refl), rest) refl

module _ (zone : TimeZone) (new_id : NewId) (prisma : Prisma) where
  created_rows :
      (drafts : List NotificationDraft) (now : ℕ) (rows : Notifications)
      → create_many_ignoring_duplicates prisma drafts now rows
        ≡ insert_all conflicts (map (draft_row now) drafts) rows
  unfolding create_many_ignoring_duplicates insert_all
  created_rows [] now rows = refl
  created_rows (d ∷ drafts) now rows =
      prisma.create_many_lem Notification conflicts (map (draft_row now) (d ∷ drafts)) rows

  generate_each-∈ :
      (lectures : List ScheduleForReminders) (now horizon_ms : ℕ) (db : Db) (rows : Notifications)
      (n : Notification)
      → n ∈ rows
      → n ∈ (generate_each zone new_id prisma lectures now horizon_ms db rows).0
  unfolding generate_each
  generate_each-∈ [] now horizon_ms db rows n m = m
  generate_each-∈ (l ∷ lectures) now horizon_ms db rows n m =
      let drafts = upcoming_drafts zone new_id prisma l now horizon_ms db in
      let e = ap (λ (r : Notifications × ℕ). r.0) (created_rows drafts now rows) in
      generate_each-∈ lectures now horizon_ms db
        (create_many_ignoring_duplicates prisma drafts now rows).0 n
        (subst (λ (z : Notifications). n ∈ z) (sym e)
          (insert_all-∈ conflicts (map (draft_row now) drafts) rows n m))

  -- Each draft is in conflict with a row that is there afterwards.
  generate_each-covers :
      (lectures : List ScheduleForReminders) (now horizon_ms : ℕ) (db : Db) (rows : Notifications)
      (l : ScheduleForReminders) (d : NotificationDraft)
      → l ∈ lectures
      → d ∈ upcoming_drafts zone new_id prisma l now horizon_ms db
      → (n : Notification) × (n
          ∈ (generate_each zone new_id prisma lectures now horizon_ms db rows).0)
        × (conflicts (draft_row now d) n ≡ true)
  unfolding generate_each
  generate_each-covers [] now horizon_ms db rows l d m k = absurd m
  generate_each-covers (x ∷ lectures) now horizon_ms db rows l d m k =
      let drafts = upcoming_drafts zone new_id prisma x now horizon_ms db in
      let rows' = (create_many_ignoring_duplicates prisma drafts now rows).0 in
      let e = ap (λ (r : Notifications × ℕ). r.0) (created_rows drafts now rows) in
      elim m [
        | inl same ↦
            let k' =
              subst (λ z. d ∈ upcoming_drafts zone new_id prisma z now horizon_ms db) same k in
            let row = draft_row now d in
            let new = map (draft_row now) drafts in
            let (n, here, t) = (any_iff (conflicts row) _).0 (
              insert_all-covers conflicts self_conflict new rows row
                ((∈-map_iff (draft_row now) row drafts).1 (d, k', refl))) in
            (
              n,
              generate_each-∈ lectures now horizon_ms db rows' n
                  (subst (λ (z : Notifications). n ∈ z) (sym e) here),
              t,
            )
        | inr m' ↦ generate_each-covers lectures now horizon_ms db rows' l d m' k
      ]

  pub generate_each-again :
      (lectures : List ScheduleForReminders) (now horizon_ms : ℕ) (db : Db) (rows : Notifications)
      → ((l : ScheduleForReminders)
          → l ∈ lectures
          → (d : NotificationDraft) → d ∈ upcoming_drafts zone new_id prisma l now horizon_ms db
          → any (conflicts (draft_row now d)) rows ≡ true)
      → ((generate_each zone new_id prisma lectures now horizon_ms db rows).0 ≡ rows)
        × ((generate_each zone new_id prisma lectures now horizon_ms db rows).1.created ≡ 0)
  unfolding generate_each
  generate_each-again [] now horizon_ms db rows covered = (refl, refl)
  generate_each-again (l ∷ lectures) now horizon_ms db rows covered =
      let drafts = upcoming_drafts zone new_id prisma l now horizon_ms db in
      let none_new : create_many_ignoring_duplicates prisma drafts now rows ≡ (rows, 0) =
        created_rows drafts now rows
        ∙ insert_all-none conflicts (map (draft_row now) drafts) rows (λ n m.
          let (d, k, e) = (∈-map_iff (draft_row now) n drafts).0 m in
          subst (λ z. any (conflicts z) rows ≡ true) (sym e) (covered l (inl refl) d k)) in
      let rest = generate_each-again lectures now horizon_ms db rows (λ x m. covered x (inr m)) in
      rw none_new (rest.0, omega (arith, rest.1))

  -- The ids that are drawn for the drafts of a run are of no other notification after it.
  abbrev pub IsFresh : ℕ → ℕ → ReminderTables → Notifications → Type 0
  IsFresh now horizon_ms tables rows =
      (l : ScheduleForReminders)
      → l ∈ find_active_for_reminders prisma tables
      → (d : NotificationDraft) → d ∈ upcoming_drafts zone new_id prisma l now horizon_ms tables.db
      → (n : Notification) → n ∈ (generate_upcoming zone new_id prisma now horizon_ms tables rows).0
      → n.id ≡ d.id
      → same_occurrence (draft_row now d) n ≡ true

  -- Each draft of the run has its occurrence, person and type among the rows afterwards.
  pub upcoming-same_occurrence :
      (now horizon_ms : ℕ) (tables : ReminderTables) (rows : Notifications)
      → IsFresh now horizon_ms tables rows
      → (l : ScheduleForReminders) → l ∈ find_active_for_reminders prisma tables
      → (d : NotificationDraft) → d ∈ upcoming_drafts zone new_id prisma l now horizon_ms tables.db
      → (n : Notification) × (n
          ∈ (generate_upcoming zone new_id prisma now horizon_ms tables rows).0)
        × (same_occurrence (draft_row now d) n ≡ true)
  unfolding generate_upcoming
  upcoming-same_occurrence now horizon_ms tables rows fresh l m d k =
      let lectures = find_active_for_reminders prisma tables in
      let (n, here, t) = generate_each-covers lectures now horizon_ms tables.db rows l d m k in
      (
        n,
        here,
        elim (Bool-cases (same_id (draft_row now d) n)) [
          | inl e ↦ fresh l m d k n here (ground arith)
          | inr e ↦ rw e at t
        ],
      )
