-- ===== src/Session/Invariant.antt =====
-- What holds of the attendance tables between two writes, and that each write of
-- backend/src/repositories/session.repository.ts and attendance.repository.ts keeps it.
pub mod Writes
use wall_e_campus_assistant.Prelude.{
  ℕ, ◌≡◌, ◌⊎◌, ◌↔◌, ◌≢◌, refl, inl, inr, Bool, true, false, not, Option, some, none, List, [], ◌∷◌,
  ◌++◌, any, if◌then◌else◌, ◌∈◌, Bool-cases, arith, sym, ap, ◌∙◌, ∈-append, any_iff, any-false,
  subst, false≢true, Option-cases, ∈-map_iff, map, ◌==◌, ◌&&◌,
}
use wall_e_campus_assistant.Database.{Prisma}
use wall_e_campus_assistant.Database.Rows.{update_where, insert_new, insert_all}
use wall_e_campus_assistant.Database.Rows.Laws.{
  Distinct, Distinct-insert_new, Distinct-insert_all, Distinct-unique, Distinct-update_where,
  ∈-update_where, update_where-∈, insert_new-eq-some, ∈-insert_all, insert_all-∈,
}
use wall_e_campus_assistant.Session.Window.{
  SessionStatus, active, closed, is_active, is_closed, AttendanceStatus, present, late, absent,
}
use wall_e_campus_assistant.Session.Store.{
  SessionCloseReason, Session, Attendance, Db, same_attendance, same_session,
}
use wall_e_campus_assistant.Session.Repository.{
  NewSession, SessionDefaults, session_row, attendance_row, create_session, update_status,
  close_if_open, mark_absences_swept, create_attendance, create_absences, has_id, is_open_with_id,
  is_unswept_with_id, close_with, swept_at,
}

-- The sessions of an id are closed.
abbrev pub IsClosedId : ℕ → Db → Type 0
IsClosedId id db = (s : Session) → s ∈ db.sessions → s.id ≡ id → s.status ≡ closed

abbrev pub IsKnownId : ℕ → Db → Type 0
IsKnownId id db = (s : Session) × (s ∈ db.sessions) × (s.id ≡ id)

pub record IsSound (db : Db) : Type 0 where
  pub one_row : Distinct same_attendance db.attendances
  pub one_session : Distinct same_session db.sessions
  pub referenced : (a : Attendance) → a ∈ db.attendances → IsKnownId a.session_id db
  pub absent_closed :
      (a : Attendance) → a ∈ db.attendances → a.status ≡ absent → IsClosedId a.session_id db
  pub swept_closed :
      (s : Session) → s ∈ db.sessions → s.absences_swept_at ≢ none → s.status ≡ closed

pub same_attendance_symmetric : (a b : Attendance) → same_attendance a b ≡ same_attendance b a
unfolding same_attendance
same_attendance_symmetric a b = ground arith

pub same_session_symmetric : (a b : Session) → same_session a b ≡ same_session b a
unfolding same_session
same_session_symmetric a b = ground arith

pub same_session_iff : (a b : Session) → (same_session a b ≡ true) ↔ (a.id ≡ b.id)
unfolding same_session
same_session_iff a b = ground arith

same_session_of_id : (a a' b : Session) → a.id ≡ a'.id → same_session a b ≡ same_session a' b
unfolding same_session
same_session_of_id a a' b e = rw e

-- Under the invariant a session found closed is all that its id names.
pub IsClosedId-of_closed :
    {db : Db}
    → IsSound db
    → (s : Session) → s ∈ db.sessions
    → s.status ≡ closed
    → IsClosedId s.id db
IsClosedId-of_closed {db} sound s m c t k e =
    subst (λ (z : Session). z.status ≡ closed)
      (Distinct-unique same_session same_session_symmetric db.sessions s t sound.one_session m k
        ((same_session_iff s t).1 (sym e)))
      c

-- An update of sessions that keeps ids, keeps what is closed closed, and marks as swept only what is
-- closed.
module _ (test : Session → Bool) (change : Session → Session) (db : Db)
    (same_id : (s : Session) → (change s).id ≡ s.id)
    (stays : (s : Session)
      → s ∈ db.sessions
      → test s ≡ true
      → s.status ≡ closed
      → (change s).status ≡ closed)
    (swept : (s : Session)
      → s ∈ db.sessions
      → test s ≡ true
      → (change s).absences_swept_at ≢ none
      → (change s).status ≡ closed) where
  abbrev pub after : Db
  after = record db { sessions = update_where test change db.sessions }

  abbrev changed : Session → Session
  changed s = if test s then change s else s

  changed-id : (s : Session) → (changed s).id ≡ s.id
  changed-id s = elim (Bool-cases (test s)) [ inl e ↦ rw e (same_id s) | inr e ↦ rw e ]

  changed-closed : (s : Session) → s ∈ db.sessions → s.status ≡ closed → (changed s).status ≡ closed
  changed-closed s m c = elim (Bool-cases (test s)) [
    | inl e ↦ rw e (stays s m e c)
    | inr e ↦ rw e c
  ]

  changed-swept :
      IsSound db
      → (s : Session) → s ∈ db.sessions
      → (changed s).absences_swept_at ≢ none
      → (changed s).status ≡ closed
  changed-swept sound s m = elim (Bool-cases (test s)) [
    | inl e ↦ rw e (swept s m e)
    | inr e ↦ rw e (sound.swept_closed s m)
  ]

  pub update-IsClosedId : (id : ℕ) → IsClosedId id db → IsClosedId id after
  update-IsClosedId id c t k e =
      let (s, m, q) = ∈-update_where test change db.sessions k in
      subst (λ (z : Session). z.status ≡ closed) (sym q)
        (changed-closed s m (c s m (sym (changed-id s) ∙ ap (λ (z : Session). z.id) (sym q) ∙ e)))

  pub update-IsKnownId : (id : ℕ) → IsKnownId id db → IsKnownId id after
  update-IsKnownId id (s, k, e) =
      (changed s, update_where-∈ test change db.sessions s k, changed-id s ∙ e)

  pub update-IsSound : IsSound db → IsSound after
  update-IsSound sound = record {
    one_row = sound.one_row;
    one_session =
        Distinct-update_where same_session same_session_symmetric test change
          (λ a b. same_session_of_id (change a) a b (same_id a)) db.sessions sound.one_session;
    referenced = λ a m.
        let (s, k, e) = sound.referenced a m in
        (changed s, update_where-∈ test change db.sessions s k, changed-id s ∙ e);
    absent_closed = λ a m h. update-IsClosedId a.session_id (sound.absent_closed a m h);
    swept_closed = λ t k n.
        let (s, m, q) = ∈-update_where test change db.sessions k in
        subst (λ (z : Session). z.status ≡ closed) (sym q)
          (changed-swept sound s m (subst (λ (z : Session). z.absences_swept_at ≢ none) q n));
  }
