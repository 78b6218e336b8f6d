-- ===== src/Session/Sweep/Laws/Roll.antt =====
-- Whom the roll of a session marks absent (sweepOne of
-- backend/src/services/attendance-lifecycle.service.ts).
use wall_e_campus_assistant.Prelude.{
  ℕ, ◌≡◌, ◌≢◌, ◌↔◌, refl, inl, inr, true, false, not, ◌&&◌, Option, some, none, List, [], ◌∷◌, ◌∈◌,
  sym, ◌∙◌, subst, arith, Bool-cases, map, keep, ◌==◌, ∈-keep_iff, ∈-map_iff, any-==_iff,
  false≢true,
}
use wall_e_campus_assistant.Database.{Prisma}
use wall_e_campus_assistant.Session.Window.{AttendanceStatus, absent, same_occurrence_window}
use wall_e_campus_assistant.Session.Store.{Session, Attendance, LectureSchedule, Student, Db}
use wall_e_campus_assistant.Session.Repository.{
  start_key, cohort_where, in_set, is_absent, find_student_ids_by_session,
  find_attended_student_ids_by_sessions, opened_for_between,
}
use wall_e_campus_assistant.Session.Sweep.{
  cohort_criteria, is_expected, attended_elsewhere, expected_ids, missing_ids,
}

abbrev pub IsOnRoll : ℕ → ℕ → Db → Type 0
IsOnRoll student session db =
    (a : Attendance) × (a ∈ db.attendances) × (a.student_id ≡ student) × (a.session_id ≡ session)

-- Another session of the same lecture and university that opened within the band around this one.
abbrev pub IsSibling : Session → Session → Db → Type 0
IsSibling s t db =
    (schedule : ℕ) × (s.lecture_schedule_id ≡ some schedule)
    × (t ∈ db.sessions)
    × (t.id ≢ s.id)
    × (opened_for_between schedule s.organization_id (same_occurrence_window s.start_time).from
          (same_occurrence_window s.start_time).to t
        ≡ true)

abbrev pub AttendedSibling : ℕ → Session → Db → Type 0
AttendedSibling student s db =
    (a : Attendance) × (t : Session) × (a ∈ db.attendances)
    × (a.student_id ≡ student)
    × (a.status ≢ absent)
    × (a.session_id ≡ t.id)
    × IsSibling s t db

in_set-false : (ids : List ℕ) (x : ℕ) → (in_set ids x ≡ false) ↔ (x ∈ ids → ⊥)
in_set-false ids x = (
  λ h m. false≢true (sym h ∙ (any-==_iff x ids).1 m),
  λ n. elim (Bool-cases (in_set ids x)) [ inl e ↦ absurd (n ((any-==_iff x ids).0 e)) | inr e ↦ e ],
)

not_absent_iff : (t : AttendanceStatus) → (not (is_absent t) ≡ true) ↔ (t ≢ absent)
not_absent_iff absent = (λ h. cc, λ n. absurd (n refl))
not_absent_iff _ = (λ h. cc, λ n. refl)

is_attended_iff :
    (ids : List ℕ) (a : Attendance)
    → ((in_set ids a.session_id && not (is_absent a.status)) ≡ true)
      ↔ ((a.session_id ∈ ids) × (a.status ≢ absent))
is_attended_iff ids a =
    let (to, from) = any-==_iff a.session_id ids in
    let (to', from') = not_absent_iff a.status in
    (
      λ h. (to (ground arith), to' (ground arith)),
      λ (m, n). let x = from m in let y = from' n in ground arith,
    )

module _ (prisma : Prisma) where
  abbrev pub IsExpected : ℕ → Session → LectureSchedule → Db → Type 0
  IsExpected student s l db =
      (p : Student) × (p ∈ db.students)
      × (p.user_id ≡ student)
      × (cohort_where prisma (cohort_criteria s l) p ≡ true)
      × (is_expected s l p ≡ true)

  expected_ids_iff :
      (s : Session) (l : LectureSchedule) (db : Db) (i : ℕ)
      → (i ∈ expected_ids prisma s l db) ↔ IsExpected i s l db
  unfolding expected_ids
  expected_ids_iff s l db i =
      let cohort = cohort_where prisma (cohort_criteria s l) in
      let found = prisma.find_all Student cohort db.students in
      let ids = ∈-map_iff (λ (p : Student). p.user_id) i (keep (is_expected s l) found) in
      (
        λ m.
            let (p, k, e) = ids.0 m in
            let (k', t) = (∈-keep_iff (is_expected s l) p found).0 k in
            let (k'', c) = (prisma.find_all_iff Student cohort db.students p).0 k' in
            (p, k'', sym e, c, t),
        λ (p, k, e, c, t). ids.1 (
          p,
          (∈-keep_iff (is_expected s l) p found).1
              ((prisma.find_all_iff Student cohort db.students p).1 (k, c), t),
          sym e,
        ),
      )

  recorded_iff :
      (session : ℕ) (db : Db) (i : ℕ)
      → (i ∈ find_student_ids_by_session prisma session db) ↔ IsOnRoll i session db
  unfolding find_student_ids_by_session
  recorded_iff session db i =
      let test = λ (a : Attendance). a.session_id == session in
      let ids =
        ∈-map_iff (λ (a : Attendance). a.student_id) i
          (prisma.find_all Attendance test db.attendances) in
      (
        λ m.
            let (a, k, e) = ids.0 m in
            let (k', t) = (prisma.find_all_iff Attendance test db.attendances a).0 k in
            (a, k', sym e, ground arith),
        λ (a, k, e, q).
            ids.1 (
              a,
              (prisma.find_all_iff Attendance test db.attendances a).1 (k, ground arith),
              sym e,
            ),
      )

  attended_ids_iff :
      (ids : List ℕ) (db : Db) (i : ℕ)
      → (i ∈ find_attended_student_ids_by_sessions prisma ids db) ↔ (
          (a : Attendance) × (a ∈ db.attendances)
          × (a.student_id ≡ i)
          × (a.status ≢ absent)
          × (a.session_id ∈ ids))
  unfolding find_attended_student_ids_by_sessions
  attended_ids_iff [] db i = (λ m. absurd m, λ (a, m, e, n, k). absurd k)
  attended_ids_iff (j ∷ ids) db i =
      let test = λ (a : Attendance). in_set (j ∷ ids) a.session_id && not (is_absent a.status) in
      let found =
        ∈-map_iff (λ (a : Attendance). a.student_id) i
          (prisma.find_all Attendance test db.attendances) in
      (
        λ m.
            let (a, k, e) = found.0 m in
            let (k', t) = (prisma.find_all_iff Attendance test db.attendances a).0 k in
            let (among, attended) = (is_attended_iff (j ∷ ids) a).0 t in
            (a, k', sym e, attended, among),
        λ (a, k, e, n, q). found.1 (
          a,
          (prisma.find_all_iff Attendance test db.attendances a).1
              (k, (is_attended_iff (j ∷ ids) a).1 (q, n)),
          sym e,
        ),
      )

  attended_elsewhere_iff :
      (s : Session) (o : Option ℕ) (db : Db) (i : ℕ)
      → s.lecture_schedule_id ≡ o
      → (i ∈ attended_elsewhere prisma s o db) ↔ AttendedSibling i s db
  unfolding attended_elsewhere
  attended_elsewhere_iff s none db i e =
      (λ m. absurd m, λ (a, t, m, q, n, r, sibling). let z = sibling.1 in cc)
  attended_elsewhere_iff s (some schedule) db i e =
      let from = (same_occurrence_window s.start_time).from in
      let to = (same_occurrence_window s.start_time).to in
      let test = opened_for_between schedule s.organization_id from to in
      let siblings = prisma.find_all_by Session start_key test db.sessions in
      let other = λ (id : ℕ). not (id == s.id) in
      let all_ids = map (λ (t : Session). t.id) siblings in
      let attended = attended_ids_iff (keep other all_ids) db i in
      (
        λ m.
            let (a, k, q, n, among) = attended.0 m in
            let (here, apart) = (∈-keep_iff other a.session_id all_ids).0 among in
            let (t, k', r) = (∈-map_iff (λ (t : Session). t.id) a.session_id siblings).0 here in
            let (stored, fits) =
              (prisma.find_all_by_iff Session start_key test db.sessions t).0 k' in
            (a, t, k, q, n, r, (schedule, e, stored, ground arith, fits)),
        λ (a, t, k, q, n, r, sibling).
            let (schedule', same, stored, apart, fits) = sibling in
            let one : schedule' ≡ schedule = cc in
            let fits' =
              subst (λ z. opened_for_between z s.organization_id from to t ≡ true) one fits in
            attended.1 (
              a,
              k,
              q,
              n,
              (∈-keep_iff other a.session_id all_ids).1 (
                (∈-map_iff (λ (t : Session). t.id) a.session_id siblings).1 (
                  t,
                  (prisma.find_all_by_iff Session start_key test db.sessions t).1 (stored, fits'),
                  r,
                ),
                ground arith,
              ),
            ),
      )

  -- The roll marks absent exactly who was expected, has no row for the session, and has no PRESENT
  -- or LATE row for a sibling of it.
  pub missing_ids_iff :
      (s : Session) (l : LectureSchedule) (db : Db) (i : ℕ)
      → (i ∈ missing_ids prisma s l db)
        ↔ (IsExpected i s l db × ¬ IsOnRoll i s.id db × ¬ AttendedSibling i s db)
  unfolding missing_ids
  missing_ids_iff s l db i =
      let roll = find_student_ids_by_session prisma s.id db in
      let elsewhere = attended_elsewhere prisma s s.lecture_schedule_id db in
      let test = λ (id : ℕ). not (in_set roll id) && not (in_set elsewhere id) in
      let on_roll = recorded_iff s.id db i in
      let attended = attended_elsewhere_iff s s.lecture_schedule_id db i refl in
      let kept = ∈-keep_iff test i (expected_ids prisma s l db) in
      (
        λ m.
            let (k, t) = kept.0 m in
            (
              (expected_ids_iff s l db i).0 k,
              λ h. (in_set-false roll i).0 (ground arith) (on_roll.1 h),
              λ h. (in_set-false elsewhere i).0 (ground arith) (attended.1 h),
            ),
        λ (x, n, n').
            let a = (in_set-false roll i).1 (λ m. n (on_roll.0 m)) in
            let b = (in_set-false elsewhere i).1 (λ m. n' (attended.0 m)) in
            kept.1 ((expected_ids_iff s l db i).1 x, ground arith),
      )
