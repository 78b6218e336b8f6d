-- ===== src/Session/Service/Written.antt =====
-- What opening and closing a session write (backend/src/services/session.service.ts).
use wall_e_campus_assistant.Prelude.{
  ℕ, ◌≡◌, find, ◌≢◌, ◌⊎◌, ◌↔◌, refl, inl, inr, true, false, Option, some, none, List, [], ◌∷◌, ◌++◌,
  ◌∈◌, map, ◌==◌, if◌then◌else◌, sym, ap, ◌∙◌, arith, Bool-cases, ok, any,
}
use wall_e_campus_assistant.Access.Roles.{instructor, university_admin, system_owner}
use wall_e_campus_assistant.Access.Sessions.{
  SessionAuthActor, is_session_operator, can_see_session_iff,
}
use wall_e_campus_assistant.Database.{Prisma}
use wall_e_campus_assistant.Database.Rows.{update_where, insert_new}
use wall_e_campus_assistant.Session.Window.{active, closed}
use wall_e_campus_assistant.Session.Store.{Session, LectureSchedule, Db, manual, same_session}
use wall_e_campus_assistant.Session.Repository.{
  SessionDefaults, NewSession, session_row, create_session, find_session, update_status, has_id,
  close_with,
}
use wall_e_campus_assistant.Session.Service.{
  CreateSessionInput, new_session, open_session, close_session,
}
use wall_e_campus_assistant.Session.Service.Laws.{
  OpensFor, open_session-created_iff, close_session-updated_iff,
}

-- The row of a session that is opened for a lecture, or for none.
abbrev pub opened_row :
    CreateSessionInput → SessionAuthActor → SessionDefaults → Option LectureSchedule → Session
opened_row input actor defaults (some l) = record {
  id = defaults.id;
  title = input.title;
  created_by_id = actor.id;
  organization_id = actor.organization_id;
  lecture_schedule_id = some l.id;
  course_id = some l.course_id;
  room = some l.room;
  qr_secret = defaults.qr_secret;
  status = active;
  start_time = defaults.start_time;
  end_time = none;
  close_reason = none;
  absences_swept_at = none;
}
opened_row input actor defaults none = record {
  id = defaults.id;
  title = input.title;
  created_by_id = actor.id;
  organization_id = actor.organization_id;
  lecture_schedule_id = none;
  course_id = none;
  room = input.room;
  qr_secret = defaults.qr_secret;
  status = active;
  start_time = defaults.start_time;
  end_time = none;
  close_reason = none;
  absences_swept_at = none;
}

-- A row after every session of an id has been closed by hand at an instant.
abbrev pub closed_row : ℕ → ℕ → Session → Session
closed_row id now s =
    if s.id == id
    then record s { status = closed; end_time = some now; close_reason = some manual }
    else s

operator_iff :
    (actor : SessionAuthActor)
    → (is_session_operator actor ≡ true)
      ↔ ((actor.role ≡ instructor) ⊎ (actor.role ≡ university_admin) ⊎ (actor.role ≡ system_owner))
unfolding is_session_operator
operator_iff actor = ground arith

session_row-new_session :
    (input : CreateSessionInput) (actor : SessionAuthActor) (defaults : SessionDefaults)
    (l : Option LectureSchedule)
    → session_row (new_session input actor l) defaults ≡ opened_row input actor defaults l
unfolding session_row new_session
session_row-new_session input actor defaults none = refl
session_row-new_session input actor defaults (some l) = refl

update_where-eq-map :
    (id now : ℕ) (rows : List Session)
    → update_where (has_id id) (close_with now manual) rows ≡ map (closed_row id now) rows
unfolding update_where
update_where-eq-map id now [] = refl
update_where-eq-map id now (s ∷ rows) =
    ap (λ z. closed_row id now s ∷ z) (update_where-eq-map id now rows)

no_clash_iff :
    (row : Session) (rows : List Session)
    → (any (same_session row) rows ≡ false) ↔ ((s : Session) → s ∈ rows → s.id ≢ row.id)
unfolding same_session
no_clash_iff row [] = (λ h s m. absurd m, λ h. refl)
no_clash_iff row (r ∷ rows) =
    let (to, from) = no_clash_iff row rows in
    (
      λ h s m e. elim m [
        | inl same ↦ let k : s.id ≡ r.id = ap (λ (z : Session). z.id) same in absurd (ground arith)
        | inr later ↦ to (ground arith) s later e
      ],
      λ h. let head = h r (inl refl) in let tail = from (λ s m. h s (inr m)) in ground arith,
    )

module _ (prisma : Prisma) where
  create_session_iff :
      (input : NewSession) (defaults : SessionDefaults) (db db' : Db)
      → (create_session prisma input defaults db ≡ some db') ↔ (
          ((s : Session) → s ∈ db.sessions → s.id ≢ defaults.id)
          × (db' ≡ record db { sessions = db.sessions ++ session_row input defaults ∷ [] }))
  unfolding create_session insert_new session_row
  create_session_iff input defaults db db' =
      let row = session_row input defaults in
      let (to, from) = no_clash_iff row db.sessions in
      rw (create_session, prisma.create_lem Session same_session row db.sessions)
        (elim (Bool-cases (any (same_session row) db.sessions)) [
          | inl clash ↦
              rw (insert_new, clash) (λ h. cc, λ (h, e). let k = from h in absurd (ground arith))
          | inr free ↦ rw (insert_new, free) (λ h. (to free, cc), λ (h, e). cc)
        ])

  -- A session is opened exactly if the actor is an instructor, a university's administrator or the
  -- system owner; the lecture, if one is named, is the one that is found, is of the actor's university,
  -- is the actor's own if the actor is an instructor, is not cancelled and has a room that is not
  -- blank, and no session of it in that university starts from twelve hours before now to twelve hours
  -- after; and no session has the new id. One row is then added and nothing else changes: it is active,
  -- with the title that was asked for, the actor as its creator and the actor's university, and with
  -- the lecture's id, course and room, or with no lecture, no course and the room that was asked for.
  pub open_session_iff :
      (input : CreateSessionInput) (actor : SessionAuthActor) (now : ℕ) (defaults : SessionDefaults)
      (db db' : Db)
      → (open_session prisma input actor now defaults db ≡ ok db') ↔ (
          ((actor.role ≡ instructor)
            ⊎ (actor.role ≡ university_admin)
            ⊎ (actor.role ≡ system_owner))
          × ((l : Option LectureSchedule) × OpensFor prisma input.lecture_schedule_id l actor now db
              × ((s : Session) → s ∈ db.sessions → s.id ≢ defaults.id)
              × (db' ≡ record db {
                sessions = db.sessions ++ opened_row input actor defaults l ∷ [];
              })))
  open_session_iff input actor now defaults db db' =
      let (to, from) = open_session-created_iff prisma input actor now defaults db db' in
      let (operator, role) = operator_iff actor in
      (
        λ h.
            let (o, (l, opens, created)) = to h in
            let (fresh, written) =
              (create_session_iff (new_session input actor l) defaults db db').0 created in
            (
              operator o,
              (l, opens, fresh, rw (← session_row-new_session input actor defaults l) written),
            ),
        λ (r, (l, opens, fresh, written)). from (
          role r,
          (
            l,
            opens,
            (create_session_iff (new_session input actor l) defaults db db').1
                (fresh, rw (session_row-new_session input actor defaults l) written),
          ),
        ),
      )

  -- A session is closed by hand exactly if it is found, is of the actor's university, the actor is a
  -- university's administrator, the system owner, or the instructor who opened it, and it was read as
  -- active. Its row then is closed, by hand and with now as its end; every other row and every other
  -- table is kept.
  pub close_session_iff :
      (id : ℕ) (actor : SessionAuthActor) (now : ℕ) (db db' : Db)
      → (close_session prisma id actor now db ≡ ok db') ↔ (
          (s : Session) × (find (λ (z : Session). z.id == id) db.sessions ≡ some s)
          × (s.organization_id ≡ actor.organization_id)
          × ((actor.role ≡ university_admin)
              ⊎ (actor.role ≡ system_owner)
              ⊎ ((actor.role ≡ instructor) × (s.created_by_id ≡ actor.id)))
          × (s.status ≡ active)
          × (db' ≡ record db { sessions = map (closed_row id now) db.sessions }))
  unfolding update_status find_session
  close_session_iff id actor now db db' =
      let (to, from) = close_session-updated_iff prisma id actor now db db' in
      let look_up = prisma.find_unique_lem Session (has_id id) db.sessions in
      let rows =
        ap (λ (r : List Session × ℕ). record db { sessions = r.0 })
          (prisma.update_many_lem Session (has_id id) (close_with now manual) db.sessions)
        ∙ ap (λ z. record db { sessions = z }) (update_where-eq-map id now db.sessions) in
      (
        λ h.
            let (s, found, sees, going, written) = to h in
            let (university, role) = (can_see_session_iff _ actor).0 sees in
            (s, sym look_up ∙ found, university, role, going, sym written ∙ rows),
        λ (s, found, university, role, going, written). from (
          s,
          look_up ∙ found,
          (can_see_session_iff _ actor).1 (university, role),
          going,
          rows ∙ sym written,
        ),
      )
