-- ===== src/Session/Steps.antt =====
-- The writes of the services on the attendance tables, as steps in any order: each await of the code
-- is a point where another request or the worker may write.
use wall_e_campus_assistant.Prelude.{
  [], ◌∷◌, inl, ∈-append, refl, sym, ap, ℕ, ◌≡◌, ◌≢◌, some, List, subst, ◌∷◌, ◌∈◌, sym, ap, ◌∙◌,
  ∈-append, inl,
}
use wall_e_campus_assistant.Database.{Prisma}
use wall_e_campus_assistant.Session.Window.{AttendanceStatus, absent}
use wall_e_campus_assistant.Session.Store.{manual, auto_stale, Db, Attendance, same_attendance}
use wall_e_campus_assistant.Session.Repository.{
  NewSession, SessionDefaults, create_session, update_status, close_if_open, mark_absences_swept,
  create_attendance, create_absences,
}
use wall_e_campus_assistant.Database.Rows.Laws.{insert_new-eq-some, insert_all-∈}
use wall_e_campus_assistant.Session.Invariant.{IsSound, IsKnownId, IsClosedId}
use wall_e_campus_assistant.Session.Invariant.Writes.{
  close_if_open-IsSound, update_status-IsSound, mark_absences_swept-IsSound,
  create_attendance-IsSound, create_absences-IsSound, create_session-IsSound,
  create_attendance-eq-some, create_session-eq-some, create_session-IsOver, update_status-IsOver,
  close_if_open-IsOver, mark_absences_swept-IsOver,
}

-- A session that exists and is closed.
pub record IsOver (id : ℕ) (db : Db) : Type 0 where
  pub known : IsKnownId id db
  pub closed_id : IsClosedId id db

module _ (prisma : Prisma) where
  -- A roll is called only for a session that was read as closed, which the step asks for where it
  -- writes; that it is still closed then is a theorem below.
  pub data Step (db : Db) : Db → Type 0 where
    opened :
        {db' : Db} (input : NewSession) (defaults : SessionDefaults)
        → create_session prisma input defaults db ≡ some db'
        → Step db db'
    scanned :
        {db' : Db} (student session : ℕ) (status : AttendanceStatus) (at : ℕ)
        → IsKnownId session db
        → status ≢ absent
        → create_attendance prisma student session status at db ≡ some db'
        → Step db db'
    closed_by_hand :
        {db' : Db} (id at : ℕ) → update_status prisma id at manual db ≡ db' → Step db db'
    closed_if_open :
        {db' : Db} (id at : ℕ) → (close_if_open prisma id at auto_stale db).0 ≡ db' → Step db db'
    roll_called :
        {db' : Db} (session : ℕ) (ids : List ℕ) (at : ℕ)
        → IsOver session db
        → (create_absences prisma session ids at db).0 ≡ db'
        → Step db db'
    marked :
        {db' : Db} (id at : ℕ)
        → IsOver id db
        → (mark_absences_swept prisma id at db).0 ≡ db'
        → Step db db'

  pub data Reach (db : Db) : Db → Type 0 where
    here : Reach db db
    next : {db' db'' : Db} → Reach db db' → Step db' db'' → Reach db db''

  Step-IsSound : {db db' : Db} → Step db db' → IsSound db → IsSound db'
  Step-IsSound {db} {db'} (opened input defaults h) sound =
      create_session-IsSound prisma db sound input defaults db' h
  Step-IsSound {db} {db'} (scanned student session status at known n h) sound =
      create_attendance-IsSound prisma db sound student session status at db' known n h
  Step-IsSound {db} (closed_by_hand id at e) sound =
      subst IsSound e (update_status-IsSound prisma db sound id at manual)
  Step-IsSound {db} (closed_if_open id at e) sound =
      subst IsSound e (close_if_open-IsSound prisma db sound id at auto_stale)
  Step-IsSound {db} (roll_called session ids at over e) sound =
      subst IsSound e
        (create_absences-IsSound prisma db sound session ids at over.known over.closed_id)
  Step-IsSound {db} (marked id at over e) sound =
      subst IsSound e (mark_absences_swept-IsSound prisma db sound id at over.closed_id)

  -- From tables with the invariant, whatever the services write and in whatever order, the tables
  -- keep it: a student has at most one row for a session, every row is of a known session, an ABSENT
  -- row is of a closed session, and a session whose roll is marked as called is closed.
  pub Reach-IsSound : {db db' : Db} → Reach db db' → IsSound db → IsSound db'
  Reach-IsSound here sound = sound
  Reach-IsSound (next r st) sound = Step-IsSound st (Reach-IsSound r sound)

  create_absences-sessions :
      (session : ℕ) (ids : List ℕ) (at : ℕ) (db : Db)
      → (create_absences prisma session ids at db).0.sessions ≡ db.sessions
  unfolding create_absences
  create_absences-sessions session [] at db = refl
  create_absences-sessions session (i ∷ ids) at db = refl

  over : {id : ℕ} {db : Db} → IsKnownId id db × IsClosedId id db → IsOver id db
  over (k, c) = record { known = k; closed_id = c }

  IsOver-sessions :
      (id : ℕ) (db db' : Db) → db'.sessions ≡ db.sessions → IsOver id db → IsOver id db'
  IsOver-sessions id db db' e o =
      let (s, m, q) = o.known in
      record {
        known = (s, subst (λ l. s ∈ l) (sym e) m, q);
        closed_id = λ t m'. o.closed_id t (subst (λ l. t ∈ l) e m');
      }

  pub Step-IsOver :
      {db db' : Db} → Step db db' → IsSound db → (id : ℕ) → IsOver id db → IsOver id db'
  Step-IsOver {db} {db'} (opened input defaults h) sound id o =
      over (create_session-IsOver prisma db sound input defaults db' id h o.known o.closed_id)
  Step-IsOver {db} {db'} (scanned student session status at known n h) sound id o =
      let (rows, _, q) =
        create_attendance-eq-some prisma db sound student session status at db' h in
      IsOver-sessions id db db' (sym (ap (λ (d : Db). d.sessions) q)) o
  Step-IsOver {db} (closed_by_hand k at e) sound id o =
      subst (IsOver id) e
        (over (update_status-IsOver prisma db sound k at manual id o.known o.closed_id))
  Step-IsOver {db} (closed_if_open k at e) sound id o =
      subst (IsOver id) e
        (over (close_if_open-IsOver prisma db sound k at auto_stale id o.known o.closed_id))
  Step-IsOver {db} {db'} (roll_called session ids at _ e) sound id o =
      IsOver-sessions id db db'
        (ap (λ (d : Db). d.sessions) (sym e) ∙ create_absences-sessions session ids at db) o
  Step-IsOver {db} (marked k at ov e) sound id o =
      subst (IsOver id) e
        (over (mark_absences_swept-IsOver prisma db sound k at id ov.closed_id o.known o.closed_id))

  -- A session that is closed stays closed, whatever the services write and in whatever order.
  pub Reach-IsOver :
      {db db' : Db} → Reach db db' → IsSound db → (id : ℕ) → IsOver id db → IsOver id db'
  Reach-IsOver here sound id o = o
  Reach-IsOver (next r st) sound id o =
      Step-IsOver st (Reach-IsSound r sound) id (Reach-IsOver r sound id o)

  create_absences-∈ :
      (session : ℕ) (ids : List ℕ) (at : ℕ) (db : Db) (a : Attendance)
      → a ∈ db.attendances
      → a ∈ (create_absences prisma session ids at db).0.attendances
  unfolding create_absences
  create_absences-∈ session [] at db a m = m
  create_absences-∈ session (i ∷ ids) at db a m =
      subst (λ (r : List Attendance × ℕ). a ∈ r.0)
        (sym (prisma.create_many_lem Attendance same_attendance _ db.attendances))
        (insert_all-∈ same_attendance _ db.attendances a m)

  Step-∈ :
      {db db' : Db}
      → Step db db'
      → IsSound db
      → (a : Attendance) → a ∈ db.attendances
      → a ∈ db'.attendances
  Step-∈ {db} {db'} (opened input defaults h) sound a m =
      let (rows, _, q) = create_session-eq-some prisma db sound input defaults db' h in
      subst (λ (d : Db). a ∈ d.attendances) q m
  Step-∈ {db} {db'} (scanned student session status at known n h) sound a m =
      let (rows, made, q) =
        create_attendance-eq-some prisma db sound student session status at db' h in
      let (_, grown) = insert_new-eq-some same_attendance _ db.attendances made in
      subst (λ (d : Db). a ∈ d.attendances) q
        (subst (λ l. a ∈ l) (sym grown) ((∈-append a db.attendances _).1 (inl m)))
  Step-∈ {db} (closed_by_hand k at e) sound a m =
      subst (λ (d : Db). a ∈ d.attendances) e (unfold update_status in m)
  Step-∈ {db} (closed_if_open k at e) sound a m =
      subst (λ (d : Db). a ∈ d.attendances) e (unfold close_if_open in m)
  Step-∈ {db} {db'} (roll_called session ids at _ e) sound a m =
      subst (λ (d : Db). a ∈ d.attendances) e (create_absences-∈ session ids at db a m)
  Step-∈ {db} (marked k at ov e) sound a m =
      subst (λ (d : Db). a ∈ d.attendances) e (unfold mark_absences_swept in m)

  -- A row of attendance, once written, is there for good and unchanged, whatever the services write
  -- and in whatever order: no LATE becomes PRESENT, and no ABSENT is written over.
  pub Reach-∈ :
      {db db' : Db}
      → Reach db db'
      → IsSound db
      → (a : Attendance) → a ∈ db.attendances
      → a ∈ db'.attendances
  Reach-∈ here sound a m = m
  Reach-∈ (next r st) sound a m = Step-∈ st (Reach-IsSound r sound) a (Reach-∈ r sound a m)

  pub Reach-trans : {db db' db'' : Db} → Reach db db' → Reach db' db'' → Reach db db''
  Reach-trans r here = r
  Reach-trans r (next q st) = next (Reach-trans r q) st

  pub one_step : {db db' : Db} → Step db db' → Reach db db'
  one_step st = next here st
