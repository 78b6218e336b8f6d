-- ===== src/Session/Sweep/Laws.antt =====
-- That a pass of the attendance worker (runSweep of
-- backend/src/services/attendance-lifecycle.service.ts) is a sequence of the services' steps.
pub mod Roll
pub mod Outcome
use wall_e_campus_assistant.Prelude.{
  ℕ, ◌+◌, ◌≡◌, ◌⊎◌, ◌↔◌, ◌≢◌, refl, inl, inr, Bool, true, false, not, ◌&&◌, Option, some, none,
  List, [], ◌∷◌, ◌∈◌, sym, ap, ◌∙◌, subst, arith, Bool-cases, if_elim, All, All-of_∈, if◌then◌else◌,
  ◌==◌, is_none,
}
use wall_e_campus_assistant.Database.{Prisma}
use wall_e_campus_assistant.Session.Window.{
  SessionWindowConfig, is_stale, session_window, closed, is_closed, SessionStatus, active,
}
use wall_e_campus_assistant.Session.Store.{Session, LectureSchedule, Db, auto_stale}
use wall_e_campus_assistant.Session.Repository.{
  schedule_of, find_open_for_stale_check, close_if_open, find_closed_awaiting_sweep, awaits_sweep,
  end_key, mark_absences_swept, create_absences,
}
use wall_e_campus_assistant.Session.Service.{window_input}
use wall_e_campus_assistant.Session.Invariant.{IsSound, IsClosedId-of_closed}
use wall_e_campus_assistant.Session.Steps.{
  IsOver, Step, Reach, here, next, closed_if_open, roll_called, marked, Step-IsOver, Reach-IsSound,
  Reach-IsOver, Reach-trans, one_step,
}
use wall_e_campus_assistant.Session.Sweep.{
  one_if, SweepOutcome, AbsenceSweepResult, close_one, close_all, close_stale_sessions, missing_ids,
  sweep_linked, sweep_one, add_outcome, sweep_all, sweep_absences, run_sweep,
}

module _ (prisma : Prisma) where
  module _ (config : SessionWindowConfig) where
    close_one-Reach :
        (s : Session) (now : ℕ) (db : Db) → Reach prisma db (close_one prisma config s now db).0
    unfolding close_one
    close_one-Reach s now db =
        let input = window_input s (schedule_of prisma s db) in
        if_elim (λ (r : Db × Bool). Reach prisma db r.0) (not (is_stale input now config))
          (db, false)
          (close_if_open prisma s.id (session_window input config).ends_at auto_stale db) here
          (one_step prisma (closed_if_open s.id (session_window input config).ends_at refl))

    close_all-Reach :
        (l : List Session) (now n : ℕ) (db : Db)
        → Reach prisma db (close_all prisma config l now n db).0
    unfolding close_all
    close_all-Reach [] now n db = here
    close_all-Reach (s ∷ l) now n db =
        let (db', did) = close_one prisma config s now db in
        Reach-trans prisma (close_one-Reach s now db) (close_all-Reach l now (n + one_if did) db')

    close_stale_sessions-Reach :
        (batch now : ℕ) (db : Db)
        → Reach prisma db (close_stale_sessions prisma config batch now db).0
    unfolding close_stale_sessions
    close_stale_sessions-Reach batch now db =
        close_all-Reach (find_open_for_stale_check prisma batch db) now 0 db

  sweep_linked-Reach :
      (s : Session) (l : Option LectureSchedule) (now : ℕ) (db : Db)
      → IsSound db
      → IsOver s.id db
      → Reach prisma db (sweep_linked prisma s l now db).0
  unfolding sweep_linked
  sweep_linked-Reach s none now db sound over = one_step prisma (marked s.id now over refl)
  sweep_linked-Reach s (some l) now db sound over =
      let ids = missing_ids prisma s l db in
      let rolled : Step prisma db (create_absences prisma s.id ids now db).0 =
        roll_called s.id ids now over refl in
      if_elim (λ (r : Db × SweepOutcome). Reach prisma db r.0)
        (not (l.organization_id == s.organization_id)) _ _ here
        (next (one_step prisma rolled)
          (marked s.id now (Step-IsOver prisma rolled sound s.id over) refl))

  sweep_one-Reach :
      (s : Session) (now : ℕ) (db : Db)
      → IsSound db
      → IsOver s.id db
      → Reach prisma db (sweep_one prisma s now db).0
  unfolding sweep_one
  sweep_one-Reach s now db = sweep_linked-Reach s (schedule_of prisma s db) now db

  All-IsOver :
      {db db' : Db}
      → Reach prisma db db'
      → IsSound db
      → (l : List Session) → All (λ s. IsOver s.id db) l
      → All (λ s. IsOver s.id db') l
  All-IsOver r sound [] h = tt
  All-IsOver r sound (s ∷ l) (o, h) = (Reach-IsOver prisma r sound s.id o, All-IsOver r sound l h)

  sweep_all-Reach :
      (l : List Session) (now : ℕ) (result : AbsenceSweepResult) (db : Db)
      → IsSound db
      → All (λ s. IsOver s.id db) l
      → Reach prisma db (sweep_all prisma l now result db).0
  unfolding sweep_all
  sweep_all-Reach [] now result db sound h = here
  sweep_all-Reach (s ∷ l) now result db sound (o, h) =
      let (db', outcome) = sweep_one prisma s now db in
      let first = sweep_one-Reach s now db sound o in
      Reach-trans prisma first (
        sweep_all-Reach l now (add_outcome result outcome) db' (Reach-IsSound prisma first sound)
          (All-IsOver first sound l h))

  awaiting-IsOver :
      (batch : ℕ) (db : Db)
      → IsSound db
      → All (λ s. IsOver s.id db) (find_closed_awaiting_sweep prisma batch db)
  unfolding find_closed_awaiting_sweep
  awaiting-IsOver batch db sound =
      All-of_∈ (λ (s : Session). IsOver s.id db) _
        (λ s m.
          let (k, t) =
            prisma.find_many_sound Session awaits_sweep (λ z. end_key z.end_time) batch db.sessions
              s m in
          record {
            known = (s, k, refl);
            closed_id = IsClosedId-of_closed sound s k (ground arith);
          })

  -- A whole pass, from tables with the invariant, is a sequence of the services' steps: it closes a
  -- session only where it is open, calls a roll and marks it only for sessions that are closed. So
  -- the invariant holds afterwards too.
  pub run_sweep-Reach :
      (config : SessionWindowConfig) (batch now : ℕ) (db : Db)
      → IsSound db
      → Reach prisma db (run_sweep prisma config batch now db).0
        × IsSound (run_sweep prisma config batch now db).0
  unfolding run_sweep sweep_absences
  run_sweep-Reach config batch now db sound =
      let (db', stale) = close_stale_sessions prisma config batch now db in
      let first = close_stale_sessions-Reach config batch now db in
      let sound' = Reach-IsSound prisma first sound in
      let second =
        sweep_all-Reach (find_closed_awaiting_sweep prisma batch db') now _ db' sound'
          (awaiting-IsOver batch db' sound') in
      let whole = Reach-trans prisma first second in (whole, Reach-IsSound prisma whole sound)
