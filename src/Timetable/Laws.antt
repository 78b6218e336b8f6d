-- ===== src/Timetable/Laws.antt =====
-- What the changes of the timetable keep (backend/src/services/schedule.service.ts), each taken to
-- run from its look-ups to its write with no other change between.
use wall_e_campus_assistant.Prelude.{
  ℕ, ◌≡◌, ◌⊎◌, refl, inl, inr, true, not, Option, some, none, [], ◌∷◌, ◌∈◌, sym, ap, ◌∙◌, subst,
  arith, Bool-cases, Option-cases, ok, ∈-append, >>-ok, >>=-ok, throw_if, throw_if-ok,
}
use wall_e_campus_assistant.Text.{trim, text_ltb}
use wall_e_campus_assistant.Errors.{bad_request}
use wall_e_campus_assistant.Database.{Prisma}
use wall_e_campus_assistant.Database.Rows.Laws.{
  Distinct, Distinct-snoc, Distinct-insert_new, insert_new-eq-some,
}
use wall_e_campus_assistant.Database.Rows.Single.{any_from}
use wall_e_campus_assistant.Session.Store.{LectureSchedule}
use wall_e_campus_assistant.Outbox.{delete_unsent_for_schedule}
use wall_e_campus_assistant.Timetable.{TimetableDb, UserRow, same_schedule_id}
use wall_e_campus_assistant.Timetable.Service.{
  CreateScheduleInput, UpdateScheduleInput, created_row, merged_row, switched_off, load_in_org,
  assert_slot_is_free, create_schedule, update_schedule, deactivate_schedule, with_update,
  deactivated, slot_if_active, assert_course_in_org, course_if_given, assert_instructor_in_org,
  instructor_if_given, failed,
}
use wall_e_campus_assistant.Timetable.Clashes.{
  IsTimetable, clashes, clashes_symmetric, assert_slot_is_free-clashes,
}
use wall_e_campus_assistant.Timetable.Changes.{
  IsCreateInput, IsUpdateInput, id_symmetric, loaded, with_update-IsTimetable, off-clashes,
}

module _ (prisma : Prisma) where
  create_schedule-IsTimetable :
      (input : CreateScheduleInput) (organization_id : ℕ) (db db' : TimetableDb)
      → create_schedule prisma input organization_id db ≡ ok db'
      → IsCreateInput input
      → IsTimetable prisma db.schedules
      → IsTimetable prisma db'.schedules
  unfolding create_schedule
  create_schedule-IsTimetable input organization_id db db' h valid sound =
      let (_, h1) = >>-ok (assert_course_in_org prisma input.course_id organization_id db) _ h in
      let (instructor, _, h2) =
        >>=-ok (assert_instructor_in_org prisma input.instructor_id organization_id db) _ h1 in
      let (free, h3) =
        >>-ok
          (assert_slot_is_free prisma (created_row input organization_id instructor) none
            db.schedules)
          _ h2 in
      let e : prisma.create LectureSchedule same_schedule_id
            (created_row input organization_id instructor) db.schedules
          ≡ some db'.schedules =
        ground arith in
      let row = created_row input organization_id instructor in
      let added = sym (prisma.create_lem LectureSchedule same_schedule_id row db.schedules) ∙ e in
      let (_, q) = insert_new-eq-some same_schedule_id row db.schedules added in
      let each : (l : LectureSchedule) → l ∈ db'.schedules → (l ≡ row) ⊎ (l ∈ db.schedules) = λ l k.
        elim ((∈-append l db.schedules (row ∷ [])).0 (subst (λ z. l ∈ z) q k)) [
          | inl k' ↦ inr k'
          | inr k' ↦ elim k' [ inl w ↦ inl w | inr b ↦ absurd b ]
        ] in
      record {
        apart = subst (Distinct (clashes prisma)) (sym q) (
            Distinct-snoc (clashes prisma) (clashes_symmetric prisma) db.schedules row
              (any_from (clashes prisma row) db.schedules (λ y m.
                assert_slot_is_free-clashes prisma row none db.schedules free valid.tidy y m refl))
              sound.apart);
        one_id =
            Distinct-insert_new same_schedule_id id_symmetric row db.schedules added sound.one_id;
        tidy = λ l k. elim (each l k) [
          | inl w ↦ subst (λ (z : LectureSchedule). trim z.room ≡ z.room) (sym w) valid.tidy
          | inr k' ↦ sound.tidy l k'
        ];
        hours = λ l k. elim (each l k) [
          | inl w ↦
              subst (λ (z : LectureSchedule). text_ltb z.start_time z.end_time ≡ true) (sym w)
                valid.hours
          | inr k' ↦ sound.hours l k'
        ];
      }

  tidy_merged :
      (input : UpdateScheduleInput) (instructor : Option UserRow) (l : LectureSchedule)
      → IsUpdateInput input
      → trim l.room ≡ l.room
      → trim (merged_row input instructor l).room ≡ (merged_row input instructor l).room
  tidy_merged input instructor l valid old = elim (Option-cases input.room) [
    | inl e ↦ rw e old
    | inr (room, e) ↦ rw e (valid room e)
  ]

  -- What a change that succeeds has found, and what it writes.
  pub update_schedule-ok :
      (id : ℕ) (input : UpdateScheduleInput) (organization_id : ℕ) (db db' : TimetableDb)
      → update_schedule prisma id input organization_id db ≡ ok db'
      → (existing : LectureSchedule) × (instructor : Option UserRow) × (load_in_org prisma id
            organization_id db
          ≡ ok existing)
        × (text_ltb
              (merged_row input instructor existing).start_time
              (merged_row input instructor existing).end_time
            ≡ true)
        × (slot_if_active prisma id (merged_row input instructor existing) db.schedules ≡ ok tt)
        × (with_update prisma id
              (merged_row input instructor)
              (delete_unsent_for_schedule prisma id db.notifications).0
              db
            ≡ db')
  unfolding update_schedule
  update_schedule-ok id input organization_id db db' h =
      let (existing, here, h1) = >>=-ok (load_in_org prisma id organization_id db) _ h in
      let (_, h2) = >>-ok (course_if_given prisma input.course_id organization_id db) _ h1 in
      let (instructor, _, h3) =
        >>=-ok (instructor_if_given prisma input.instructor_id organization_id db) _ h2 in
      let merged = merged_row input instructor existing in
      let late = not (text_ltb merged.start_time merged.end_time) in
      let refusal = failed (bad_request "startTime must be before endTime") in
      let (in_order, h4) = >>-ok (throw_if late refusal) _ h3 in
      let (free, h5) = >>-ok (slot_if_active prisma id merged db.schedules) _ h4 in
      let early = throw_if-ok late refusal in_order in
      (existing, instructor, here, ground arith, free, ground arith)

  update_schedule-IsTimetable :
      (id : ℕ) (input : UpdateScheduleInput) (organization_id : ℕ) (db db' : TimetableDb)
      → update_schedule prisma id input organization_id db ≡ ok db'
      → IsUpdateInput input
      → IsTimetable prisma db.schedules
      → IsTimetable prisma db'.schedules
  update_schedule-IsTimetable id input organization_id db db' h valid sound =
      let (existing, instructor, here, hours, free, e) =
        update_schedule-ok id input organization_id db db' h in
      let (m, mine, _) = loaded prisma id organization_id db existing here in
      let merged = merged_row input instructor existing in
      let tidy = tidy_merged input instructor existing valid (sound.tidy existing m) in
      subst (λ (z : TimetableDb). IsTimetable prisma z.schedules) e
        (with_update-IsTimetable prisma id (merged_row input instructor) existing db.schedules sound
          m mine (λ l. refl) tidy hours
          (λ other k apart. elim (Bool-cases merged.is_active) [
            | inl on ↦
                assert_slot_is_free-clashes prisma merged (some id) db.schedules (ground arith) tidy
                  other k (ground arith)
            | inr off ↦ off-clashes prisma merged other off
          ]))

  deactivate_schedule-IsTimetable :
      (id organization_id : ℕ) (db db' : TimetableDb)
      → deactivate_schedule prisma id organization_id db ≡ ok db'
      → IsTimetable prisma db.schedules
      → IsTimetable prisma db'.schedules
  unfolding deactivate_schedule
  deactivate_schedule-IsTimetable id organization_id db db' h sound =
      let (existing, here, e) : (existing : LectureSchedule) × (load_in_org prisma id
              organization_id db
            ≡ ok existing)
          × (deactivated prisma id existing.is_active db ≡ db') =
        ground arith in
      let (m, mine, _) = loaded prisma id organization_id db existing here in
      elim (Bool-cases existing.is_active) [
        | inl on ↦
            subst (λ (z : TimetableDb). IsTimetable prisma z.schedules)
              (sym (ap (λ b. deactivated prisma id b db) on) ∙ e)
              (with_update-IsTimetable prisma id switched_off existing db.schedules sound m mine
                (λ l. refl) (sound.tidy existing m) (sound.hours existing m)
                (λ other k apart. off-clashes prisma (switched_off existing) other refl))
        | inr off ↦
            subst (λ (z : TimetableDb). IsTimetable prisma z.schedules)
              (sym (ap (λ b. deactivated prisma id b db) off) ∙ e) sound
      ]

  -- A change that succeeds, of inputs that the request's schema has let through.
  pub data TimetableStep (db : TimetableDb) : TimetableDb → Type 0 where
    created :
        {db' : TimetableDb} (input : CreateScheduleInput) (organization_id : ℕ)
        → IsCreateInput input
        → create_schedule prisma input organization_id db ≡ ok db'
        → TimetableStep db db'
    changed :
        {db' : TimetableDb} (id : ℕ) (input : UpdateScheduleInput) (organization_id : ℕ)
        → IsUpdateInput input
        → update_schedule prisma id input organization_id db ≡ ok db'
        → TimetableStep db db'
    called_off :
        {db' : TimetableDb} (id organization_id : ℕ)
        → deactivate_schedule prisma id organization_id db ≡ ok db'
        → TimetableStep db db'

  pub data TimetableReach (db : TimetableDb) : TimetableDb → Type 0 where
    unchanged : TimetableReach db db
    then_change :
        {db' db'' : TimetableDb}
        → TimetableReach db db'
        → TimetableStep db' db''
        → TimetableReach db db''

  TimetableStep-IsTimetable :
      {db db' : TimetableDb}
      → TimetableStep db db'
      → IsTimetable prisma db.schedules
      → IsTimetable prisma db'.schedules
  TimetableStep-IsTimetable {db} {db'} (created input organization_id valid e) sound =
      create_schedule-IsTimetable input organization_id db db' e valid sound
  TimetableStep-IsTimetable {db} {db'} (changed id input organization_id valid e) sound =
      update_schedule-IsTimetable id input organization_id db db' e valid sound
  TimetableStep-IsTimetable {db} {db'} (called_off id organization_id e) sound =
      deactivate_schedule-IsTimetable id organization_id db db' e sound

  -- However lectures are created, changed and called off, one change after the other and by inputs
  -- that the request's schema has let through: if no two lectures that are held clashed, ids were
  -- different, rooms were trimmed and every lecture started before it ended, all this holds
  -- afterwards. At no time of the week an instructor is to teach twice or a room is booked twice,
  -- whatever the case of its name's letters.
  pub TimetableReach-IsTimetable :
      {db db' : TimetableDb}
      → TimetableReach db db'
      → IsTimetable prisma db.schedules
      → IsTimetable prisma db'.schedules
  TimetableReach-IsTimetable unchanged sound = sound
  TimetableReach-IsTimetable (then_change r st) sound =
      TimetableStep-IsTimetable st (TimetableReach-IsTimetable r sound)
