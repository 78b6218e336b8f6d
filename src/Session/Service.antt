-- ===== src/Session/Service.antt =====
-- backend/src/services/session.service.ts: opening, reading and closing a session, and its QR code.
-- A call reads the tables and then makes one write, so it is a result that has the new tables.
pub mod Laws
pub mod Written
use wall_e_campus_assistant.Prelude.{
  ℕ, Bool, true, false, not, ◌&&◌, Option, none, some, List, [], ◌∷◌, ◌==◌, is_none, Result, ok,
  err, ◌>>=◌, ◌>>◌, throw_if, if◌then◌else◌,
}
use wall_e_campus_assistant.Text.{Text, trim, text_eq}
use wall_e_campus_assistant.Errors.{
  Failure, forbidden, not_found, conflict, bad_request, unique_violation,
}
use wall_e_campus_assistant.Access.Roles.{UserRole, is_instructor}
use wall_e_campus_assistant.Access.Sessions.{SessionAuthActor, can_see_session, is_session_operator}
use wall_e_campus_assistant.Database.{Prisma}
use wall_e_campus_assistant.Qr.{Jwt, generate_qr_token}
use wall_e_campus_assistant.Session.Window.{
  LectureTimes, SessionStatus, active, closed, is_active, SessionWindowInput, SessionWindowConfig,
  SessionLifecycleState, upcoming, in_progress, pending, recorded, session_state,
  same_occurrence_window,
}
use wall_e_campus_assistant.Session.Store.{manual, Session, LectureSchedule, Db}
use wall_e_campus_assistant.Session.Repository.{
  NewSession, SessionDefaults, create_session, find_session, schedule_of, find_schedule,
  update_status, find_opened_for_schedule_between,
}

-- The times of the schedule that a query joins.
abbrev pub times_of : Option LectureSchedule → Option LectureTimes
times_of none = none
times_of (some l) = some (record { start_time = l.start_time; end_time = l.end_time })

abbrev pub window_input : Session → Option LectureSchedule → SessionWindowInput
window_input s schedule = record {
  status = s.status;
  start_time = s.start_time;
  lecture_schedule = times_of schedule;
}

pub record CreateSessionInput : Type 0 where
  pub title : Text
  pub lecture_schedule_id : Option ℕ
  pub room : Option Text

-- A room that is null, or blank when trimmed.
unfoldable pub lacks_room : Option Text → Bool
unfolding trim text_eq
lacks_room none = true
lacks_room (some room) = text_eq (trim room) []

unfoldable pub already_opened : List Session → Result Failure (Unit {0})
already_opened [] = ok tt
already_opened (first ∷ rest) = err (
    conflict (
      if is_active first.status
      then "Attendance is already open for this lecture — use the session that is already running rather than opening a second one"
      else "Attendance has already been taken for this lecture today, and that session has been closed. Opening a second one would mark everybody who attended the first as absent."))

-- loadVisible, on the row that was found.
unfoldable pub visible_row : SessionAuthActor → Option Session → Result Failure Session
unfolding can_see_session
visible_row actor none = err (not_found "Session not found")
visible_row actor (some s) =
    if can_see_session
      (record { organization_id = s.organization_id; created_by_id = s.created_by_id }) actor
    then ok s
    else err (not_found "Session not found")

unfoldable pub assert_operator : SessionAuthActor → Result Failure (Unit {0})
unfolding is_session_operator
assert_operator actor =
    throw_if (not (is_session_operator actor))
      (forbidden "Only authorized teaching staff may operate attendance sessions")

-- loadScheduleForOpening, on the row that was found.
unfoldable pub schedule_row :
    SessionAuthActor → Option LectureSchedule → Result Failure LectureSchedule
unfolding lacks_room
schedule_row actor none = err (not_found "Schedule not found")
schedule_row actor (some l) = do
  throw_if (not (l.organization_id == actor.organization_id)) (not_found "Schedule not found")
  throw_if (is_instructor actor.role && not (l.instructor_id == actor.id))
      (not_found "Schedule not found")
  throw_if (not l.is_active)
      (conflict "This lecture has been cancelled — attendance cannot be opened for it")
  throw_if (lacks_room (some l.room)) (bad_request "This lecture has no room recorded")
  ok l

-- What mintQrToken says of a session that is not in progress.
abbrev pub not_in_progress : SessionLifecycleState → Failure
not_in_progress upcoming = conflict "This session has not started yet"
not_in_progress pending = conflict "This lecture has ended — attendance is no longer being taken"
not_in_progress _ = conflict "Cannot generate QR for inactive session"

abbrev pub stored : {A : Type 0} → Option A → Result Failure A
stored none = err unique_violation
stored (some a) = ok a

-- The session of a lecture, and one opened with no lecture behind it.
unfoldable pub new_session :
    CreateSessionInput → SessionAuthActor → Option LectureSchedule → NewSession
new_session input actor none = record {
  title = input.title;
  created_by_id = actor.id;
  organization_id = actor.organization_id;
  lecture_schedule_id = none;
  course_id = none;
  room = input.room;
}
new_session input actor (some l) = record {
  title = input.title;
  created_by_id = actor.id;
  organization_id = actor.organization_id;
  lecture_schedule_id = some l.id;
  course_id = some l.course_id;
  room = some l.room;
}

module _ (prisma : Prisma) where
  unfoldable pub load_visible : ℕ → SessionAuthActor → Db → Result Failure Session
  unfolding visible_row find_session
  load_visible id actor db = visible_row actor (find_session prisma id db)

  unfoldable pub load_schedule_for_opening :
      ℕ → SessionAuthActor → Db → Result Failure LectureSchedule
  unfolding schedule_row find_schedule
  load_schedule_for_opening id actor db = schedule_row actor (find_schedule prisma id db)

  unfoldable pub assert_occurrence_not_already_opened : ℕ → ℕ → ℕ → Db → Result Failure (Unit {0})
  unfolding already_opened find_opened_for_schedule_between same_occurrence_window
  assert_occurrence_not_already_opened schedule organization now db =
      let window = same_occurrence_window now in
      already_opened
        (find_opened_for_schedule_between prisma schedule organization window.from window.to db)

  unfoldable pub schedule_for :
      Option ℕ → SessionAuthActor → ℕ → Db → Result Failure (Option LectureSchedule)
  schedule_for none actor now db = ok none
  schedule_for (some id) actor now db = do
    schedule ← load_schedule_for_opening id actor db
    assert_occurrence_not_already_opened schedule.id actor.organization_id now db
    ok (some schedule)

  unfoldable pub open_session :
      CreateSessionInput → SessionAuthActor → ℕ → SessionDefaults → Db → Result Failure Db
  open_session input actor now defaults db = do
    assert_operator actor
    schedule ← schedule_for input.lecture_schedule_id actor now db
    stored (create_session prisma (new_session input actor schedule) defaults db)

  unfoldable pub close_session : ℕ → SessionAuthActor → ℕ → Db → Result Failure Db
  close_session id actor now db = do
    session ← load_visible id actor db
    throw_if (not (is_active session.status)) (conflict "Session is not active")
    ok (update_status prisma id now manual db)

  module _ (jwt : Jwt) (jwt_secret : Text) (config : SessionWindowConfig) where
    unfoldable pub mint_in_state : SessionLifecycleState → Session → ℕ → Result Failure jwt.Token
    unfolding generate_qr_token
    mint_in_state in_progress s now = ok (generate_qr_token jwt jwt_secret s.id s.qr_secret now)
    mint_in_state upcoming s now = err (not_in_progress upcoming)
    mint_in_state pending s now = err (not_in_progress pending)
    mint_in_state recorded s now = err (not_in_progress recorded)

    unfoldable pub mint_qr_token : Session → ℕ → Db → Result Failure jwt.Token
    unfolding mint_in_state session_state schedule_of
    mint_qr_token s now db =
        mint_in_state (session_state (window_input s (schedule_of prisma s db)) now config) s now

    unfoldable pub get_qr_token : ℕ → SessionAuthActor → ℕ → Db → Result Failure jwt.Token
    get_qr_token id actor now db = do
      session ← load_visible id actor db
      mint_qr_token session now db
