-- ===== src/Session/Scan/Laws.antt =====
-- When a scan is recorded, and what it writes (backend/src/services/attendance.service.ts).
use wall_e_campus_assistant.Prelude.{
  ℕ, ◌≡◌, ◌≢◌, ◌↔◌, refl, inl, inr, true, Option, some, none, sym, ◌∙◌, arith, ok, Option-cases,
  find_sound,
}
use wall_e_campus_assistant.Cohort.{
  ScheduleCriteria, resolved, missing_fields, unreadable_semester, CohortResolution, resolve_cohort,
  cohort_matches,
}
use wall_e_campus_assistant.Database.{Prisma}
use wall_e_campus_assistant.Qr.{
  Jwt, Verification, accepted, token_expired, invalid, decode_qr_token_unsafe, verify_qr_token,
}
use wall_e_campus_assistant.Session.Window.{
  SessionLifecycleState, upcoming, in_progress, pending, recorded, session_state, punctuality,
  absent,
}
use wall_e_campus_assistant.Session.Store.{Session, LectureSchedule, Db}
use wall_e_campus_assistant.Session.Repository.{
  find_session, schedule_of, course_of, find_student, find_by_student_and_session,
  create_attendance, attendance_row,
}
use wall_e_campus_assistant.Session.Repository.{has_id}
use wall_e_campus_assistant.Session.Steps.{Reach, scanned, one_step}
use wall_e_campus_assistant.Session.Service.{window_input}
use wall_e_campus_assistant.Session.Scan.{
  ScanErrorCode, ScanActor, ScanConfig, ScanSuccess, address_of, profile_of, verified, in_cohort,
  scannable, found, present_scan, assert_eligible, scan_session, scan_attendance, Text,
}

found-eq-ok :
    {A : Type 0} (code : ScanErrorCode) (o : Option A) {a : A} → found code o ≡ ok a → o ≡ some a
unfolding found
found-eq-ok code none h = cc
found-eq-ok code (some a) h = cc

verified-eq-ok :
    (v : Verification) {u : Unit {0}} → verified v ≡ ok u → (id : ℕ) × (v ≡ accepted id)
unfolding verified
verified-eq-ok (accepted id) h = (id, refl)
verified-eq-ok token_expired h = cc
verified-eq-ok invalid h = cc

scannable-eq-ok : (t : SessionLifecycleState) {u : Unit {0}} → scannable t ≡ ok u → t ≡ in_progress
unfolding scannable
scannable-eq-ok in_progress h = refl
scannable-eq-ok upcoming h = cc
scannable-eq-ok pending h = cc
scannable-eq-ok recorded h = cc

punctuality-ne-absent : (opened at late_after : ℕ) → punctuality opened at late_after ≢ absent
unfolding punctuality
punctuality-ne-absent opened at late_after = ground arith

in_cohort-eq-ok :
    (l : LectureSchedule) (r : CohortResolution) {u : Unit {0}}
    → in_cohort l r ≡ ok u
    → (c : ScheduleCriteria) × (r ≡ resolved c) × (cohort_matches (address_of l) c ≡ true)
unfolding in_cohort
in_cohort-eq-ok l (missing_fields fields) h = cc
in_cohort-eq-ok l (unreadable_semester semester) h = cc
in_cohort-eq-ok l (resolved c) h = (c, refl, ground arith)

module _ (prisma : Prisma) (jwt : Jwt) (jwt_secret : Text) (config : ScanConfig) where
  -- A session with no lecture is open to a scan only if the configuration says so; a lecture of the
  -- session's university is, if the student's profile resolves to a cohort that it is addressed to.
  abbrev pub IsEligible : Session → Option LectureSchedule → ScanActor → Db → Type 0
  IsEligible s none actor db = config.allow_unlinked_sessions ≡ true
  IsEligible s (some l) actor db =
      (c : ScheduleCriteria) × (l.organization_id ≡ s.organization_id)
      × (resolve_cohort (profile_of (find_student prisma actor.id db)) ≡ resolved c)
      × (cohort_matches (address_of l) c ≡ true)

  assert_eligible-eq-ok :
      (s : Session) (l : Option LectureSchedule) (actor : ScanActor) (db : Db) {u : Unit {0}}
      → assert_eligible prisma jwt jwt_secret config s l actor db ≡ ok u
      → IsEligible s l actor db
  unfolding assert_eligible
  assert_eligible-eq-ok s none actor db h = ground arith
  assert_eligible-eq-ok s (some l) actor db h =
      let resolution = resolve_cohort (profile_of (find_student prisma actor.id db)) in
      let (c, e, m) = in_cohort-eq-ok l resolution {u = tt} (ground arith) in
      (c, ground arith, e, m)

  -- What a recorded scan had going for it, and what it wrote.
  pub record IsRecorded (s : Session) (l : Option LectureSchedule) (actor : ScanActor) (now : ℕ)
      (db db' : Db) (r : ScanSuccess) : Type 0 where
    pub same_university : s.organization_id ≡ actor.organization_id
    pub eligible : IsEligible s l actor db
    pub in_time : session_state (window_input s l) now config.window ≡ in_progress
    pub first_scan : find_by_student_and_session prisma actor.id s.id db ≡ none
    pub written :
        create_attendance prisma actor.id s.id
          (punctuality s.start_time now config.late_after_minutes)
          now
          db
        ≡ some db'
    pub reported :
        r
        ≡ present_scan
            (attendance_row actor.id s.id
              (punctuality s.start_time now config.late_after_minutes)
              now)
            s
            l
            (course_of prisma s db)

  scan_session-IsRecorded :
      (s : Session) (l : Option LectureSchedule) (actor : ScanActor) (now : ℕ) (db db' : Db)
      (r : ScanSuccess)
      → scan_session prisma jwt jwt_secret config s l actor now db ≡ ok (r, db')
      → IsRecorded s l actor now db db' r
  unfolding scan_session
  scan_session-IsRecorded s l actor now db db' r h = record {
    same_university = ground arith;
    eligible = assert_eligible-eq-ok s l actor db {u = tt} (ground arith);
    in_time =
        scannable-eq-ok (session_state (window_input s l) now config.window) {u = tt}
          (ground arith);
    first_scan = ground arith;
    written = ground arith;
    reported = ground arith;
  }

  assert_eligible_complete :
      (s : Session) (l : Option LectureSchedule) (actor : ScanActor) (db : Db)
      → IsEligible s l actor db
      → assert_eligible prisma jwt jwt_secret config s l actor db ≡ ok tt
  unfolding assert_eligible in_cohort
  assert_eligible_complete s none actor db h = ground arith
  assert_eligible_complete s (some l) actor db (c, same, e, m) = ground arith

  scan_session_complete :
      (s : Session) (l : Option LectureSchedule) (actor : ScanActor) (now : ℕ) (db db' : Db)
      (r : ScanSuccess)
      → IsRecorded s l actor now db db' r
      → scan_session prisma jwt jwt_secret config s l actor now db ≡ ok (r, db')
  unfolding scan_session scannable
  scan_session_complete s l actor now db db' r i =
      ground (arith, assert_eligible_complete s l actor db i.eligible)

  -- The token names a session and verifies against its secret, and the scan is recorded for it.
  abbrev pub IsScanned : jwt.Token → ScanActor → ℕ → Db → Db → ScanSuccess → Type 0
  IsScanned token actor now db db' r =
      (id : ℕ) × (s : Session) × (payload : ℕ) × (decode_qr_token_unsafe jwt jwt_secret token
        ≡ some id)
      × (find_session prisma id db ≡ some s)
      × (verify_qr_token jwt jwt_secret token s.qr_secret now ≡ accepted payload)
      × IsRecorded s (schedule_of prisma s db) actor now db db' r

  scan_attendance_sound :
      (token : jwt.Token) (actor : ScanActor) (now : ℕ) (db db' : Db) (r : ScanSuccess)
      → scan_attendance prisma jwt jwt_secret config token actor now db ≡ ok (r, db')
      → IsScanned token actor now db db' r
  unfolding scan_attendance found
  scan_attendance_sound token actor now db db' r h =
      elim (Option-cases (decode_qr_token_unsafe jwt jwt_secret token)) [
        | inl e ↦ absurd (ground arith)
        | inr (id, d) ↦ elim (Option-cases (find_session prisma id db)) [
          | inl e ↦ absurd (ground arith)
          | inr (s, f) ↦
              let (payload, v) =
                verified-eq-ok (verify_qr_token jwt jwt_secret token s.qr_secret now) {u = tt}
                  (ground arith) in
              (
                id,
                s,
                payload,
                d,
                f,
                v,
                scan_session-IsRecorded s (schedule_of prisma s db) actor now db db' r
                    (ground arith),
              )
        ]
      ]

  scan_attendance_complete :
      (token : jwt.Token) (actor : ScanActor) (now : ℕ) (db db' : Db) (r : ScanSuccess)
      → IsScanned token actor now db db' r
      → scan_attendance prisma jwt jwt_secret config token actor now db ≡ ok (r, db')
  unfolding scan_attendance found verified
  scan_attendance_complete token actor now db db' r (id, s, payload, d, f, v, i) =
      ground (arith, scan_session_complete s (schedule_of prisma s db) actor now db db' r i)

  -- A scan is recorded exactly if the token names a session that exists and verifies against that
  -- session's secret, the session is of the student's university, the student is entitled to be in
  -- its lecture, its lecture is in progress, and the student has no row for it; what is written is
  -- one row, PRESENT or LATE by the time since the session opened, and what is reported is that row.
  pub scan_attendance_iff :
      (token : jwt.Token) (actor : ScanActor) (now : ℕ) (db db' : Db) (r : ScanSuccess)
      → (scan_attendance prisma jwt jwt_secret config token actor now db ≡ ok (r, db'))
        ↔ IsScanned token actor now db db' r
  scan_attendance_iff token actor now db db' r = (
    scan_attendance_sound token actor now db db' r,
    scan_attendance_complete token actor now db db' r,
  )

  -- A recorded scan is one of the services' steps.
  pub scan_attendance-Reach :
      (token : jwt.Token) (actor : ScanActor) (now : ℕ) (db db' : Db) (r : ScanSuccess)
      → scan_attendance prisma jwt jwt_secret config token actor now db ≡ ok (r, db')
      → Reach prisma db db'
  unfolding find_session
  scan_attendance-Reach token actor now db db' r h =
      let (id, s, payload, d, f, v, i) = scan_attendance_sound token actor now db db' r h in
      let (m, _) =
        find_sound _ db.sessions
          (sym (prisma.find_unique_lem Session (has_id id) db.sessions) ∙ f) in
      one_step prisma (
        scanned actor.id s.id (punctuality s.start_time now config.late_after_minutes) now
          (s, m, refl)
          (λ e. absurd (punctuality-ne-absent s.start_time now config.late_after_minutes e))
          i.written)
