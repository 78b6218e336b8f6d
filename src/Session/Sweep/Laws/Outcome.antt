-- ===== src/Session/Sweep/Laws/Outcome.antt =====
-- What calling the roll of a session writes (sweepOne of
-- backend/src/services/attendance-lifecycle.service.ts).
use wall_e_campus_assistant.Prelude.{
  ℕ, ◌≡◌, ◌⊎◌, refl, inl, inr, true, some, List, [], ◌∷◌, ◌∈◌, sym, ap, ◌∙◌, subst, arith, map,
  ◌==◌, ∈-map_iff, any_iff,
}
use wall_e_campus_assistant.Database.{Prisma}
use wall_e_campus_assistant.Database.Rows.Laws.{insert_all-covers, ∈-insert_all, insert_all-∈}
use wall_e_campus_assistant.Session.Window.{absent}
use wall_e_campus_assistant.Session.Store.{
  Session, Attendance, LectureSchedule, Db, same_attendance,
}
use wall_e_campus_assistant.Session.Repository.{
  attendance_row, create_absences, mark_absences_swept,
}
use wall_e_campus_assistant.Session.Sweep.{missing_ids, sweep_linked}
use wall_e_campus_assistant.Session.Sweep.Laws.Roll.{IsOnRoll, AttendedSibling, missing_ids_iff}

same_attendance_self : (a : Attendance) → same_attendance a a ≡ true
unfolding same_attendance
same_attendance_self a = ground arith

same_attendance-eq :
    (a b : Attendance)
    → same_attendance a b ≡ true
    → (b.student_id ≡ a.student_id) × (b.session_id ≡ a.session_id)
unfolding same_attendance
same_attendance-eq a b h = ground arith

module _ (prisma : Prisma) where
  -- The rows that a batch of absences leaves.
  record Written (session : ℕ) (ids : List ℕ) (at : ℕ) (before after : List Attendance)
      : Type 0 where
    kept : (a : Attendance) → a ∈ before → a ∈ after
    new :
        (a : Attendance)
        → a ∈ after
        → (a ∈ before) ⊎ ((i : ℕ) × (i ∈ ids) × (a ≡ attendance_row i session absent at))
    covered :
        (i : ℕ)
        → i ∈ ids
        → (a : Attendance) × (a ∈ after) × (a.student_id ≡ i) × (a.session_id ≡ session)

  create_absences-Written :
      (session : ℕ) (ids : List ℕ) (at : ℕ) (db : Db)
      → Written session ids at db.attendances
          (create_absences prisma session ids at db).0.attendances
  unfolding create_absences
  create_absences-Written session [] at db = record {
    kept = λ a m. m;
    new = λ a m. inl m;
    covered = λ i m. absurd m;
  }
  create_absences-Written session (j ∷ ids) at db =
      let row = λ (student : ℕ). attendance_row student session absent at in
      let new_rows = map row (j ∷ ids) in
      subst (λ (r : List Attendance × ℕ). Written session (j ∷ ids) at db.attendances r.0)
        (sym (prisma.create_many_lem Attendance same_attendance new_rows db.attendances))
        (record {
          kept = insert_all-∈ same_attendance new_rows db.attendances;
          new = λ a m. elim (∈-insert_all same_attendance new_rows db.attendances a m) [
            | inl k ↦ inl k
            | inr (k, _) ↦ inr ((∈-map_iff row a (j ∷ ids)).0 k)
          ];
          covered = λ i m.
              let (a, k, t) = (any_iff (same_attendance (row i)) _).0 (
                insert_all-covers same_attendance same_attendance_self new_rows db.attendances
                  (row i) ((∈-map_iff row (row i) (j ∷ ids)).1 (i, m, refl))) in
              let (student, session') = same_attendance-eq (row i) a t in (a, k, student, session');
        })

  mark-attendances :
      (id at : ℕ) (db : Db) → (mark_absences_swept prisma id at db).0.attendances ≡ db.attendances
  unfolding mark_absences_swept
  mark-attendances id at db = refl

  sweep_linked-rows :
      (s : Session) (l : LectureSchedule) (now : ℕ) (db : Db)
      → l.organization_id ≡ s.organization_id
      → (sweep_linked prisma s (some l) now db).0.attendances
        ≡ (create_absences prisma s.id (missing_ids prisma s l db) now db).0.attendances
  unfolding sweep_linked
  sweep_linked-rows s l now db same =
      let t : (l.organization_id == s.organization_id) ≡ true = ground arith in
      rw t (
        mark-attendances s.id now
          (create_absences prisma s.id (missing_ids prisma s l db) now db).0)

  -- The rows that a linked session's roll leaves: those that were there, and an ABSENT row of this
  -- session for exactly the missing, so that every missing student has a row afterwards.
  pub sweep_linked-attendances :
      (s : Session) (l : LectureSchedule) (now : ℕ) (db : Db)
      → l.organization_id ≡ s.organization_id
      → let db' = (sweep_linked prisma s (some l) now db).0 in
        ((a : Attendance)
          → a ∈ db'.attendances
          → (a ∈ db.attendances)
            ⊎ ((i : ℕ) × (i ∈ missing_ids prisma s l db) × (a ≡ attendance_row i s.id absent now)))
        × ((i : ℕ) → i ∈ missing_ids prisma s l db → IsOnRoll i s.id db')
        × ((a : Attendance) → a ∈ db.attendances → a ∈ db'.attendances)
  sweep_linked-attendances s l now db same =
      let w : Written s.id (missing_ids prisma s l db) now db.attendances
          (sweep_linked prisma s (some l) now db).0.attendances =
        subst (Written s.id (missing_ids prisma s l db) now db.attendances)
          (sym (sweep_linked-rows s l now db same))
          (create_absences-Written s.id (missing_ids prisma s l db) now db) in
      (w.new, w.covered, w.kept)

  -- A student who is recorded as present or late in a sibling of the session, or in the session
  -- itself, gets no row from its roll.
  pub sweep_linked_spares :
      (s : Session) (l : LectureSchedule) (now : ℕ) (db : Db) (i : ℕ)
      → l.organization_id ≡ s.organization_id
      → IsOnRoll i s.id db ⊎ AttendedSibling i s db
      → (a : Attendance) → a ∈ (sweep_linked prisma s (some l) now db).0.attendances
      → a.student_id ≡ i
      → a ∈ db.attendances
  sweep_linked_spares s l now db i same seen a m e =
      elim ((sweep_linked-attendances s l now db same).0 a m) [
        | inl k ↦ k
        | inr (j, k, q) ↦
            let one : j ≡ i = sym (ap (λ (z : Attendance). z.student_id) q) ∙ e in
            let (_, off, away) =
              (missing_ids_iff prisma s l db i).0
                (subst (λ z. z ∈ missing_ids prisma s l db) one k) in
            elim seen [ inl on ↦ absurd (off on) | inr there ↦ absurd (away there) ]
      ]
