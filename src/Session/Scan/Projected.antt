-- ===== src/Session/Scan/Projected.antt =====
-- A code that the lecturer projects, scanned by a student: mintQrToken of
-- backend/src/services/session.service.ts with scanAttendance of
-- backend/src/services/attendance.service.ts.
use wall_e_campus_assistant.Prelude.{
  ℕ, ◌+◌, ◌/◌, ◌<◌, ◌≡◌, some, refl, sym, ◌∙◌, ap, arith, ok, find_sound, Option-cases, subst, inl,
  inr,
}
use wall_e_campus_assistant.Text.{Text}
use wall_e_campus_assistant.Access.Sessions.{SessionAuthActor}
use wall_e_campus_assistant.Database.{Prisma}
use wall_e_campus_assistant.Qr.{Jwt, generate_qr_token}
use wall_e_campus_assistant.Qr.Laws.{generate_qr_token-verify}
use wall_e_campus_assistant.Session.Store.{Session, Db}
use wall_e_campus_assistant.Session.Repository.{find_session, schedule_of, has_id}
use wall_e_campus_assistant.Session.Service.{load_visible, visible_row, get_qr_token}
use wall_e_campus_assistant.Session.Service.Laws.{get_qr_token_iff}
use wall_e_campus_assistant.Session.Scan.{
  ScanActor, ScanConfig, found, verified, scan_session, scan_attendance,
}

module _ (prisma : Prisma) (jwt : Jwt) (jwt_secret : Text) (config : ScanConfig) where
  load_visible-found :
      (id : ℕ) (actor : SessionAuthActor) (db : Db) (s : Session)
      → load_visible prisma id actor db ≡ ok s
      → find_session prisma id db ≡ some s
  unfolding load_visible visible_row
  load_visible-found id actor db s h = elim (Option-cases (find_session prisma id db)) [
    | inl e ↦ absurd (ground arith)
    | inr (s', e) ↦ ground arith
  ]

  find_session-id :
      (id : ℕ) (db : Db) (s : Session) → find_session prisma id db ≡ some s → s.id ≡ id
  unfolding find_session
  find_session-id id db s f =
      let (_, t) =
        find_sound (has_id id) db.sessions
          (sym (prisma.find_unique_lem Session (has_id id) db.sessions) ∙ f) in
      ground arith

  scan_attendance-generate :
      (s : Session) (actor : ScanActor) (now later : ℕ) (db : Db)
      → find_session prisma s.id db ≡ some s
      → later / 1000 < now / 1000 + 30
      → scan_attendance prisma jwt jwt_secret config
          (generate_qr_token jwt jwt_secret s.id s.qr_secret now)
          actor
          later
          db
        ≡ scan_session prisma jwt jwt_secret config s (schedule_of prisma s db) actor later db
  unfolding scan_attendance found verified
  scan_attendance-generate s actor now later db f lt =
      let (decoded, verifies) =
        generate_qr_token-verify jwt jwt_secret s.id s.qr_secret now later in
      let accepts = verifies.1 lt in rw (decoded, f, accepts) refl

  -- A code that was projected for a session, scanned by anyone before thirty seconds of the clock
  -- have passed: the token's checks pass, and the scan's outcome is that of the checks on that
  -- session.
  pub scan_attendance-get_qr_token :
      (id : ℕ) (staff : SessionAuthActor) (actor : ScanActor) (now later : ℕ) (db : Db)
      (token : jwt.Token)
      → get_qr_token prisma jwt jwt_secret config.window id staff now db ≡ ok token
      → later / 1000 < now / 1000 + 30
      → (s : Session) × (find_session prisma id db ≡ some s)
        × (scan_attendance prisma jwt jwt_secret config token actor later db
            ≡ scan_session prisma jwt jwt_secret config s (schedule_of prisma s db) actor later db)
  scan_attendance-get_qr_token id staff actor now later db token h lt =
      let (s, visible, _, made) =
        (get_qr_token_iff prisma jwt jwt_secret config.window id staff now db token).0 h in
      let f = load_visible-found id staff db s visible in
      let f' = ap (λ i. find_session prisma i db) (find_session-id id db s f) ∙ f in
      (
        s,
        f,
        subst
            (λ t.
              scan_attendance prisma jwt jwt_secret config t actor later db
              ≡ scan_session prisma jwt jwt_secret config s (schedule_of prisma s db) actor later
                  db)
            made (scan_attendance-generate s actor now later db f' lt),
      )
