-- ===== src/Session/Service/Laws.antt =====
-- When a session is opened, closed and projected (backend/src/services/session.service.ts).
use wall_e_campus_assistant.Prelude.{
  ℕ, ◌≡◌, find, ◌==◌, ◌≢◌, ◌↔◌, refl, inl, inr, true, false, Option, some, none, List, [], ◌∷◌, ◌∈◌,
  ap, subst, arith, ok, Option-cases, Result-cases, same_option, ◌-◌, ◌*◌, ◌≤◌, ◌<◌, ◌+◌, sym, ◌∙◌,
}
use wall_e_campus_assistant.Access.Roles.{instructor}
use wall_e_campus_assistant.Access.Sessions.{SessionAuthActor, is_session_operator, can_see_session}
use wall_e_campus_assistant.Cohort.Laws.{text_eq_iff}
use wall_e_campus_assistant.Database.{Prisma}
use wall_e_campus_assistant.Session.Window.{
  active, same_occurrence_window, is_scannable, SessionWindowConfig,
}
use wall_e_campus_assistant.Session.Store.{Session, LectureSchedule, Db, manual}
use wall_e_campus_assistant.Session.Repository.{
  start_key, SessionDefaults, create_session, find_session, find_schedule, schedule_of,
  update_status, opened_for_between,
}
use wall_e_campus_assistant.Qr.{Jwt, generate_qr_token}
use wall_e_campus_assistant.Session.Service.{
  CreateSessionInput, lacks_room, already_opened, visible_row, assert_operator, schedule_row,
  stored, load_visible, load_schedule_for_opening, assert_occurrence_not_already_opened,
  new_session, schedule_for, open_session, close_session, window_input, mint_qr_token, get_qr_token,
  Text, trim,
}

same_option_iff : (x y : Option ℕ) → (same_option x y ≡ true) ↔ (x ≡ y)
same_option_iff (some x) (some y) = ground arith
same_option_iff (some x) none = (λ h. cc, λ h. cc)
same_option_iff none (some y) = (λ h. cc, λ h. cc)
same_option_iff none none = (λ h. refl, λ h. refl)

already_opened-eq-ok : (l : List Session) {u : Unit {0}} → already_opened l ≡ ok u → l ≡ []
unfolding already_opened
already_opened-eq-ok [] h = refl
already_opened-eq-ok (s ∷ l) h = cc

-- The lecture that an actor may open attendance for.
pub record IsOpenable (l : LectureSchedule) (actor : SessionAuthActor) : Type 0 where
  pub same_university : l.organization_id ≡ actor.organization_id
  pub own_lecture : actor.role ≡ instructor → l.instructor_id ≡ actor.id
  pub not_cancelled : l.is_active ≡ true
  pub has_room : trim l.room ≢ []

room_iff : (room : Text) → (lacks_room (some room) ≡ false) ↔ (trim room ≢ [])
unfolding lacks_room
room_iff room = ground (arith, text_eq_iff (trim room) [])

schedule_row-eq-ok :
    (actor : SessionAuthActor) (o : Option LectureSchedule) (l : LectureSchedule)
    → schedule_row actor o ≡ ok l
    → (o ≡ some l) × IsOpenable l actor
unfolding schedule_row
schedule_row-eq-ok actor none l h = cc
schedule_row-eq-ok actor (some l') l h =
    let same : l' ≡ l = ground arith in
    (
      ap some same,
      subst (λ z. IsOpenable z actor) same
          (record {
            same_university = ground arith;
            own_lecture = λ e. ground arith;
            not_cancelled = ground arith;
            has_room = (room_iff l'.room).0 (ground arith);
          }),
    )

schedule_row_complete :
    (actor : SessionAuthActor) (l : LectureSchedule)
    → IsOpenable l actor
    → schedule_row actor (some l) ≡ ok l
unfolding schedule_row
schedule_row_complete actor l i =
    let same = i.same_university in
    let own = i.own_lecture in
    let going = i.not_cancelled in let room = (room_iff l.room).1 i.has_room in ground arith

stored-eq-ok : {A : Type 0} (o : Option A) {a : A} → stored o ≡ ok a → o ≡ some a
stored-eq-ok none h = cc
stored-eq-ok (some a) h = cc

module _ (prisma : Prisma) where
  -- No session of the lecture starts in the band around an instant.
  abbrev pub NoneAround : ℕ → ℕ → ℕ → Db → Type 0
  NoneAround schedule organization now db =
      (s : Session)
      → s ∈ db.sessions
      → s.lecture_schedule_id ≡ some schedule
      → s.organization_id ≡ organization
      → now - 12 * 3600000 ≤ s.start_time
      → s.start_time < now + 12 * 3600000
      → ⊥

  opened_for_between_iff :
      (schedule organization now : ℕ) (s : Session)
      → (opened_for_between schedule organization
            (same_occurrence_window now).from
            (same_occurrence_window now).to
            s
          ≡ true)
        ↔ ((s.lecture_schedule_id ≡ some schedule)
            × (s.organization_id ≡ organization)
            × (now - 12 * 3600000 ≤ s.start_time)
            × (s.start_time < now + 12 * 3600000))
  unfolding same_occurrence_window
  opened_for_between_iff schedule organization now s =
      ground (arith, same_option_iff s.lecture_schedule_id (some schedule))

  not_opened-NoneAround :
      (schedule organization now : ℕ) (db : Db) {u : Unit {0}}
      → assert_occurrence_not_already_opened prisma schedule organization now db ≡ ok u
      → NoneAround schedule organization now db
  unfolding assert_occurrence_not_already_opened
  not_opened-NoneAround schedule organization now db h s m lecture university after before =
      let from = (same_occurrence_window now).from in
      let to = (same_occurrence_window now).to in
      let test = opened_for_between schedule organization from to in
      let found = prisma.find_all_by Session start_key test db.sessions in
      let empty = already_opened-eq-ok found h in
      let e =
        (opened_for_between_iff schedule organization now s).1
          (lecture, university, after, before) in
      subst (λ l. s ∈ l) empty
        ((prisma.find_all_by_iff Session start_key test db.sessions s).1 (m, e))

  already_opened_complete :
      (l : List Session) → ((s : Session) → ¬ (s ∈ l)) → already_opened l ≡ ok tt
  unfolding already_opened
  already_opened_complete [] h = refl
  already_opened_complete (s ∷ l) h = absurd (h s (inl refl))

  NoneAround-not_opened :
      (schedule organization now : ℕ) (db : Db)
      → NoneAround schedule organization now db
      → assert_occurrence_not_already_opened prisma schedule organization now db ≡ ok tt
  unfolding assert_occurrence_not_already_opened
  NoneAround-not_opened schedule organization now db none_around =
      let from = (same_occurrence_window now).from in
      let to = (same_occurrence_window now).to in
      let test = opened_for_between schedule organization from to in
      already_opened_complete (prisma.find_all_by Session start_key test db.sessions) (λ s m.
        let (k, e) = (prisma.find_all_by_iff Session start_key test db.sessions s).0 m in
        let (lecture, university, after, before) =
          (opened_for_between_iff schedule organization now s).0 e in
        none_around s k lecture university after before)

  find_schedule-eq-find :
      (id : ℕ) (db : Db)
      → find_schedule prisma id db ≡ find (λ (l : LectureSchedule). l.id == id) db.schedules
  unfolding find_schedule
  find_schedule-eq-find id db =
      prisma.find_unique_lem LectureSchedule (λ l. l.id == id) db.schedules

  -- The lecture that a session is opened for, if any.
  abbrev pub OpensFor : Option ℕ → Option LectureSchedule → SessionAuthActor → ℕ → Db → Type 0
  OpensFor none none actor now db = Unit
  OpensFor none (some l) actor now db = ⊥
  OpensFor (some id) none actor now db = ⊥
  OpensFor (some id) (some l) actor now db =
      (find (λ (z : LectureSchedule). z.id == id) db.schedules ≡ some l)
      × IsOpenable l actor
      × NoneAround l.id actor.organization_id now db

  schedule_for-eq-ok :
      (o : Option ℕ) (actor : SessionAuthActor) (now : ℕ) (db : Db) (l : Option LectureSchedule)
      → schedule_for prisma o actor now db ≡ ok l
      → OpensFor o l actor now db
  unfolding schedule_for load_schedule_for_opening
  schedule_for-eq-ok none actor now db none h = tt
  schedule_for-eq-ok none actor now db (some l) h = ground arith
  schedule_for-eq-ok (some id) actor now db none h = ground arith
  schedule_for-eq-ok (some id) actor now db (some l) h =
      let (e, openable) = schedule_row-eq-ok actor (find_schedule prisma id db) l (ground arith) in
      (
        sym (find_schedule-eq-find id db) ∙ e,
        openable,
        not_opened-NoneAround l.id actor.organization_id now db {u = tt} (ground arith),
      )

  schedule_for_complete :
      (o : Option ℕ) (actor : SessionAuthActor) (now : ℕ) (db : Db) (l : Option LectureSchedule)
      → OpensFor o l actor now db
      → schedule_for prisma o actor now db ≡ ok l
  unfolding schedule_for load_schedule_for_opening
  schedule_for_complete none actor now db none h = refl
  schedule_for_complete none actor now db (some l) h = elim h [ ]
  schedule_for_complete (some id) actor now db none h = elim h [ ]
  schedule_for_complete (some id) actor now db (some l) (e, openable, none_around) =
      let found = find_schedule-eq-find id db ∙ e in
      let row = schedule_row_complete actor l openable in
      let free = NoneAround-not_opened l.id actor.organization_id now db none_around in ground arith

  open_session-eq-ok :
      (input : CreateSessionInput) (actor : SessionAuthActor) (now : ℕ) (defaults : SessionDefaults)
      (db db' : Db)
      → open_session prisma input actor now defaults db ≡ ok db'
      → (is_session_operator actor ≡ true)
        × ((l : Option LectureSchedule) × OpensFor input.lecture_schedule_id l actor now db
            × (create_session prisma (new_session input actor l) defaults db ≡ some db'))
  unfolding open_session assert_operator
  open_session-eq-ok input actor now defaults db db' h =
      elim (Result-cases (schedule_for prisma input.lecture_schedule_id actor now db)) [
        | inr e ↦ absurd (ground arith)
        | inl (l, e) ↦ (
          ground arith,
          (
            l,
            schedule_for-eq-ok input.lecture_schedule_id actor now db l e,
            stored-eq-ok (create_session prisma (new_session input actor l) defaults db)
                (ground arith),
          ),
        )
      ]

  pub open_session-created_iff :
      (input : CreateSessionInput) (actor : SessionAuthActor) (now : ℕ) (defaults : SessionDefaults)
      (db db' : Db)
      → (open_session prisma input actor now defaults db ≡ ok db') ↔ (
          (is_session_operator actor ≡ true)
          × ((l : Option LectureSchedule) × OpensFor input.lecture_schedule_id l actor now db
              × (create_session prisma (new_session input actor l) defaults db ≡ some db')))
  unfolding open_session assert_operator
  open_session-created_iff input actor now defaults db db' = (
    open_session-eq-ok input actor now defaults db db',
    λ (operator, (l, opens, written)).
        let found = schedule_for_complete input.lecture_schedule_id actor now db l opens in
        ground arith,
  )

  pub close_session-updated_iff :
      (id : ℕ) (actor : SessionAuthActor) (now : ℕ) (db db' : Db)
      → (close_session prisma id actor now db ≡ ok db') ↔ (
          (s : Session) × (find_session prisma id db ≡ some s)
          × (can_see_session
                (record { organization_id = s.organization_id; created_by_id = s.created_by_id })
                actor
              ≡ true)
          × (s.status ≡ active)
          × (update_status prisma id now manual db ≡ db'))
  unfolding close_session load_visible visible_row
  close_session-updated_iff id actor now db db' = elim (Option-cases (find_session prisma id db)) [
    | inl e ↦ ground arith
    | inr (s, e) ↦ ((λ h. (s, e, ground arith, ground arith, ground arith)), ground arith)
  ]

  module _ (jwt : Jwt) (jwt_secret : Text) (config : SessionWindowConfig) where
    -- A code is projected exactly for a session that the actor may see and that is scannable.
    pub get_qr_token_iff :
        (id : ℕ) (actor : SessionAuthActor) (now : ℕ) (db : Db) (token : jwt.Token)
        → (get_qr_token prisma jwt jwt_secret config id actor now db ≡ ok token) ↔ (
            (s : Session) × (load_visible prisma id actor db ≡ ok s)
            × (is_scannable (window_input s (schedule_of prisma s db)) now config ≡ true)
            × (generate_qr_token jwt jwt_secret s.id s.qr_secret now ≡ token))
    unfolding get_qr_token mint_qr_token is_scannable
    get_qr_token_iff id actor now db token = elim (Result-cases (load_visible prisma id actor db)) [
      | inr e ↦ ground arith
      | inl (s, e) ↦ ((λ h. (s, e, ground arith, ground arith)), ground arith)
    ]
