-- ===== src/Session/Invariant/Writes.antt =====
-- That each write of backend/src/repositories/session.repository.ts and attendance.repository.ts
-- keeps the invariant of the attendance tables.
use wall_e_campus_assistant.Prelude.{
  ℕ, ◌≡◌, ◌⊎◌, ◌≢◌, refl, inl, inr, Bool, false, Option, some, none, List, [], ◌∷◌, ◌++◌, any, ◌∈◌,
  arith, sym, ap, ◌∙◌, ∈-append, any-false, subst, false≢true, ∈-map_iff, map,
}
use wall_e_campus_assistant.Database.{Prisma}
use wall_e_campus_assistant.Database.Rows.{update_where, insert_new}
use wall_e_campus_assistant.Database.Rows.Laws.{
  Distinct, Distinct-insert_new, Distinct-insert_all, insert_new-eq-some, ∈-insert_all,
}
use wall_e_campus_assistant.Session.Window.{AttendanceStatus, absent}
use wall_e_campus_assistant.Session.Store.{
  SessionCloseReason, Session, Attendance, Db, same_attendance, same_session,
}
use wall_e_campus_assistant.Session.Repository.{
  NewSession, SessionDefaults, session_row, attendance_row, create_session, update_status,
  close_if_open, mark_absences_swept, create_attendance, create_absences, has_id, is_open_with_id,
  is_unswept_with_id, close_with, swept_at,
}
use wall_e_campus_assistant.Session.Invariant.{
  IsSound, IsClosedId, IsKnownId, same_attendance_symmetric, same_session_symmetric,
  same_session_iff, update-IsClosedId, update-IsKnownId, update-IsSound,
}

-- More attendance rows: each is of a known session, and of a closed one if it is ABSENT.
attendances-IsSound :
    (db : Db)
    → IsSound db
    → (rows : List Attendance) → Distinct same_attendance rows
    → ((a : Attendance)
        → a ∈ rows
        → (a ∈ db.attendances)
          ⊎ (IsKnownId a.session_id db × (a.status ≡ absent → IsClosedId a.session_id db)))
    → IsSound (record db { attendances = rows })
attendances-IsSound db sound rows d new = record {
  one_row = d;
  one_session = sound.one_session;
  referenced = λ a m. elim (new a m) [ inl k ↦ sound.referenced a k | inr (k, _) ↦ k ];
  absent_closed = λ a m h. elim (new a m) [ inl k ↦ sound.absent_closed a k h | inr (_, c) ↦ c h ];
  swept_closed = sound.swept_closed;
}

module _ (prisma : Prisma) (db : Db) (sound : IsSound db) where
  -- The tables with other sessions, as the client's update leaves them.
  abbrev updated : (Session → Bool) → (Session → Session) → Db
  updated test change = record db {
    sessions = (prisma.update_many Session test change db.sessions).0;
  }

  updated_lem :
      (test : Session → Bool) (change : Session → Session)
      → updated test change ≡ record db { sessions = update_where test change db.sessions }
  updated_lem test change =
      ap (λ (r : List Session × ℕ). record db { sessions = r.0 })
        (prisma.update_many_lem Session test change db.sessions)

  pub close_if_open-IsSound :
      (id at : ℕ) (reason : SessionCloseReason) → IsSound (close_if_open prisma id at reason db).0
  unfolding close_if_open
  close_if_open-IsSound id at reason =
      rw (updated_lem (is_open_with_id id) (close_with at reason)) (
        update-IsSound (is_open_with_id id) (close_with at reason) db (λ s. refl) (λ s m t c. refl)
          (λ s m t n. refl) sound)

  pub close_if_open-IsOver :
      (id at : ℕ) (reason : SessionCloseReason) (k : ℕ)
      → IsKnownId k db
      → IsClosedId k db
      → IsKnownId k (close_if_open prisma id at reason db).0
        × IsClosedId k (close_if_open prisma id at reason db).0
  unfolding close_if_open
  close_if_open-IsOver id at reason k known c =
      subst (λ d. IsKnownId k d × IsClosedId k d)
        (sym (updated_lem (is_open_with_id id) (close_with at reason)))
        (
          update-IsKnownId (is_open_with_id id) (close_with at reason) db (λ s. refl)
              (λ s m t c'. refl) (λ s m t n. refl) k known,
          update-IsClosedId (is_open_with_id id) (close_with at reason) db (λ s. refl)
              (λ s m t c'. refl) (λ s m t n. refl) k c,
        )

  pub update_status-IsSound :
      (id at : ℕ) (reason : SessionCloseReason) → IsSound (update_status prisma id at reason db)
  unfolding update_status
  update_status-IsSound id at reason = rw (updated_lem (has_id id) (close_with at reason)) (
      update-IsSound (has_id id) (close_with at reason) db (λ s. refl) (λ s m t c. refl)
        (λ s m t n. refl) sound)

  pub update_status-IsOver :
      (id at : ℕ) (reason : SessionCloseReason) (k : ℕ)
      → IsKnownId k db
      → IsClosedId k db
      → IsKnownId k (update_status prisma id at reason db)
        × IsClosedId k (update_status prisma id at reason db)
  unfolding update_status
  update_status-IsOver id at reason k known c =
      subst (λ d. IsKnownId k d × IsClosedId k d)
        (sym (updated_lem (has_id id) (close_with at reason)))
        (
          update-IsKnownId (has_id id) (close_with at reason) db (λ s. refl) (λ s m t c'. refl)
              (λ s m t n. refl) k known,
          update-IsClosedId (has_id id) (close_with at reason) db (λ s. refl) (λ s m t c'. refl)
              (λ s m t n. refl) k c,
        )

  -- Marking asks that the session is closed: markAbsencesSwept does not look at its status.
  pub mark_absences_swept-IsSound :
      (id at : ℕ) → IsClosedId id db → IsSound (mark_absences_swept prisma id at db).0
  unfolding mark_absences_swept
  mark_absences_swept-IsSound id at closed_id =
      rw (updated_lem (is_unswept_with_id id) (swept_at at)) (
        update-IsSound (is_unswept_with_id id) (swept_at at) db (λ s. refl) (λ s m t c. c)
          (λ s m t n. closed_id s m (ground arith)) sound)

  pub mark_absences_swept-IsOver :
      (id at : ℕ) (k : ℕ)
      → IsClosedId id db
      → IsKnownId k db
      → IsClosedId k db
      → IsKnownId k (mark_absences_swept prisma id at db).0
        × IsClosedId k (mark_absences_swept prisma id at db).0
  unfolding mark_absences_swept
  mark_absences_swept-IsOver id at k closed_id known c =
      subst (λ d. IsKnownId k d × IsClosedId k d)
        (sym (updated_lem (is_unswept_with_id id) (swept_at at)))
        (
          update-IsKnownId (is_unswept_with_id id) (swept_at at) db (λ s. refl) (λ s m t c'. c')
              (λ s m t n. closed_id s m (ground arith)) k known,
          update-IsClosedId (is_unswept_with_id id) (swept_at at) db (λ s. refl) (λ s m t c'. c')
              (λ s m t n. closed_id s m (ground arith)) k c,
        )

  pub create_attendance-eq-some :
      (student session : ℕ) (status : AttendanceStatus) (at : ℕ) (db' : Db)
      → create_attendance prisma student session status at db ≡ some db'
      → (rows : List Attendance) × (insert_new same_attendance
            (attendance_row student session status at)
            db.attendances
          ≡ some rows)
        × (record db { attendances = rows } ≡ db')
  unfolding create_attendance
  create_attendance-eq-some student session status at db' h =
      let row = attendance_row student session status at in
      let (rows, e, q) =
        with_attendances (prisma.create Attendance same_attendance row db.attendances) h in
      (rows, sym (prisma.create_lem Attendance same_attendance row db.attendances) ∙ e, q)
    where
      with_attendances :
          (o : Option (List Attendance))
          → (elim o [ none ↦ none | some rows ↦ some (record db { attendances = rows }) ])
            ≡ some db'
          → (rows : List Attendance) × (o ≡ some rows) × (record db { attendances = rows } ≡ db')
      with_attendances none e = cc
      with_attendances (some rows) e = (rows, refl, cc)

  -- A row that is not ABSENT is added for a known session.
  pub create_attendance-IsSound :
      (student session : ℕ) (status : AttendanceStatus) (at : ℕ) (db' : Db)
      → IsKnownId session db
      → status ≢ absent
      → create_attendance prisma student session status at db ≡ some db'
      → IsSound db'
  create_attendance-IsSound student session status at db' known n h =
      let row = attendance_row student session status at in
      let (rows, made, q) = create_attendance-eq-some student session status at db' h in
      let (_, grown) = insert_new-eq-some same_attendance row db.attendances made in
      subst IsSound q (
        attendances-IsSound db sound rows
          (Distinct-insert_new same_attendance same_attendance_symmetric row db.attendances made
            sound.one_row)
          (λ a m. elim ((∈-append a db.attendances (row ∷ [])).0 (subst (λ l. a ∈ l) grown m)) [
            | inl k ↦ inl k
            | inr k ↦ elim k [
              | inl same ↦ inr (
                subst (λ (z : Attendance). IsKnownId z.session_id db) (sym same) known,
                λ t. absurd (n (sym (ap (λ (z : Attendance). z.status) same) ∙ t)),
              )
              | inr b ↦ absurd b
            ]
          ]))

  -- ABSENT rows are added for a known session that is closed.
  pub create_absences-IsSound :
      (session : ℕ) (ids : List ℕ) (at : ℕ)
      → IsKnownId session db
      → IsClosedId session db
      → IsSound (create_absences prisma session ids at db).0
  unfolding create_absences
  create_absences-IsSound session [] at known c = sound
  create_absences-IsSound session (i ∷ ids) at known c =
      let new = map (λ student. attendance_row student session absent at) (i ∷ ids) in
      subst (λ (r : List Attendance × ℕ). IsSound (record db { attendances = r.0 }))
        (sym (prisma.create_many_lem Attendance same_attendance new db.attendances))
        (attendances-IsSound db sound _
          (Distinct-insert_all same_attendance same_attendance_symmetric new db.attendances
            sound.one_row)
          (λ a m. elim (∈-insert_all same_attendance new db.attendances a m) [
            | inl k ↦ inl k
            | inr (k, _) ↦
                let (student, _, e) = (∈-map_iff _ a (i ∷ ids)).0 k in
                inr (
                  subst (λ (z : Attendance). IsKnownId z.session_id db) (sym e) known,
                  λ _. subst (λ (z : Attendance). IsClosedId z.session_id db) (sym e) c,
                )
          ]))

  -- A session that is open and not swept is added, if its id is new.
  module _ (r : Session) (fresh : any (same_session r) db.sessions ≡ false) where
    not_known : (id : ℕ) → r.id ≡ id → IsKnownId id db → ⊥
    not_known id e (s, m, q) = false≢true (
        sym (any-false (same_session r) db.sessions fresh m) ∙ (same_session_iff r s).1 (e ∙ sym q))

    session_added-IsSound :
        r.absences_swept_at ≡ none
        → (rows : List Session) → rows ≡ db.sessions ++ r ∷ []
        → Distinct same_session rows
        → IsSound (record db { sessions = rows })
    session_added-IsSound unswept rows grown d =
        let split = λ (t : Session) (m : t ∈ rows).
          (∈-append t db.sessions (r ∷ [])).0 (subst (λ l. t ∈ l) grown m) in
        record {
          one_row = sound.one_row;
          one_session = d;
          referenced = λ a m.
              let (s, k, e) = sound.referenced a m in
              (s, subst (λ l. s ∈ l) (sym grown) ((∈-append s db.sessions (r ∷ [])).1 (inl k)), e);
          absent_closed = λ a m h t k e. elim (split t k) [
            | inl old ↦ sound.absent_closed a m h t old e
            | inr new ↦ elim new [
              | inl q ↦ absurd (
                  not_known a.session_id (sym (ap (λ (z : Session). z.id) q) ∙ e)
                    (sound.referenced a m))
              | inr b ↦ absurd b
            ]
          ];
          swept_closed = λ t k n. elim (split t k) [
            | inl old ↦ sound.swept_closed t old n
            | inr new ↦ elim new [
              | inl q ↦ absurd (n (ap (λ (z : Session). z.absences_swept_at) q ∙ unswept))
              | inr b ↦ absurd b
            ]
          ];
        }

  pub create_session-eq-some :
      (input : NewSession) (defaults : SessionDefaults) (db' : Db)
      → create_session prisma input defaults db ≡ some db'
      → (rows : List Session) × (insert_new same_session (session_row input defaults) db.sessions
          ≡ some rows)
        × (record db { sessions = rows } ≡ db')
  unfolding create_session
  create_session-eq-some input defaults db' h =
      let row = session_row input defaults in
      let (rows, e, q) = with_sessions (prisma.create Session same_session row db.sessions) h in
      (rows, sym (prisma.create_lem Session same_session row db.sessions) ∙ e, q)
    where
      with_sessions :
          (o : Option (List Session))
          → (elim o [ none ↦ none | some rows ↦ some (record db { sessions = rows }) ]) ≡ some db'
          → (rows : List Session) × (o ≡ some rows) × (record db { sessions = rows } ≡ db')
      with_sessions none e = cc
      with_sessions (some rows) e = (rows, refl, cc)

  pub create_session-IsSound :
      (input : NewSession) (defaults : SessionDefaults) (db' : Db)
      → create_session prisma input defaults db ≡ some db'
      → IsSound db'
  unfolding session_row
  create_session-IsSound input defaults db' h =
      let row = session_row input defaults in
      let (rows, made, q) = create_session-eq-some input defaults db' h in
      let (fresh, grown) = insert_new-eq-some same_session row db.sessions made in
      subst IsSound q (
        session_added-IsSound row fresh refl rows grown (
          Distinct-insert_new same_session same_session_symmetric row db.sessions made
            sound.one_session))

  -- A session that is known and closed is so after another is opened.
  pub create_session-IsOver :
      (input : NewSession) (defaults : SessionDefaults) (db' : Db) (id : ℕ)
      → create_session prisma input defaults db ≡ some db'
      → IsKnownId id db
      → IsClosedId id db
      → IsKnownId id db' × IsClosedId id db'
  create_session-IsOver input defaults db' id h (s, k, e) c =
      let row = session_row input defaults in
      let (rows, made, q) = create_session-eq-some input defaults db' h in
      let (fresh, grown) = insert_new-eq-some same_session row db.sessions made in
      subst (λ d. IsKnownId id d × IsClosedId id d) q
        (
          (s, subst (λ l. s ∈ l) (sym grown) ((∈-append s db.sessions (row ∷ [])).1 (inl k)), e),
          λ t m r. elim ((∈-append t db.sessions (row ∷ [])).0 (subst (λ l. t ∈ l) grown m)) [
            | inl old ↦ c t old r
            | inr new ↦ elim new [
              | inl same ↦
                  absurd
                    (not_known row fresh id (sym (ap (λ (z : Session). z.id) same) ∙ r) (s, k, e))
              | inr b ↦ absurd b
            ]
          ],
        )
