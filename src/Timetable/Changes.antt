-- ===== src/Timetable/Changes.antt =====
-- What a change of one lecture keeps of a timetable (backend/src/services/schedule.service.ts).
use wall_e_campus_assistant.Prelude.{
  ℕ, ◌≡◌, ◌⊎◌, inl, inr, true, false, ◌&&◌, some, List, ◌∈◌, sym, ap, ◌∙◌, subst, arith, Bool-cases,
  ◌==◌, ok, find_sound, if◌then◌else◌,
}
use wall_e_campus_assistant.Text.{Text, trim, text_ltb}
use wall_e_campus_assistant.Database.{Prisma}
use wall_e_campus_assistant.Database.Rows.{update_where}
use wall_e_campus_assistant.Database.Rows.Laws.{
  Distinct-unique, Distinct-update_where, ∈-update_where,
}
use wall_e_campus_assistant.Database.Rows.Single.{Distinct-weaken, Distinct-update_sole}
use wall_e_campus_assistant.Session.Store.{LectureSchedule}
use wall_e_campus_assistant.Timetable.{TimetableDb, same_schedule_id}
use wall_e_campus_assistant.Timetable.Service.{
  CreateScheduleInput, UpdateScheduleInput, schedule_in_org, load_in_org,
}
use wall_e_campus_assistant.Timetable.Clashes.{IsTimetable, clashes, clashes_symmetric}

-- What createScheduleSchema has made of a request.
pub record IsCreateInput (input : CreateScheduleInput) : Type 0 where
  pub tidy : trim input.room ≡ input.room
  pub hours : text_ltb input.start_time input.end_time ≡ true

-- What updateScheduleSchema has made of a room.
abbrev pub IsUpdateInput : UpdateScheduleInput → Type 0
IsUpdateInput input = (room : Text) → input.room ≡ some room → trim room ≡ room

pub id_symmetric : (a b : LectureSchedule) → same_schedule_id a b ≡ same_schedule_id b a
id_symmetric a b = ground arith

module _ (prisma : Prisma) where
  pub loaded :
      (id organization_id : ℕ) (db : TimetableDb) (l : LectureSchedule)
      → load_in_org prisma id organization_id db ≡ ok l
      → (l ∈ db.schedules) × ((l.id == id) ≡ true) × (l.organization_id ≡ organization_id)
  unfolding load_in_org schedule_in_org
  loaded id organization_id db l h =
      let test = λ (z : LectureSchedule). z.id == id in
      let found : (prisma.find_unique LectureSchedule test db.schedules ≡ some l)
          × (l.organization_id ≡ organization_id) =
        ground arith in
      let (m, t) =
        find_sound test db.schedules
          (sym (prisma.find_unique_lem LectureSchedule test db.schedules) ∙ found.0) in
      (m, t, found.1)

  -- A change of one row that keeps its id, leaves it tidy and makes no clash.
  module _ (id : ℕ) (change : LectureSchedule → LectureSchedule) (existing : LectureSchedule)
      (rows : List LectureSchedule) (sound : IsTimetable prisma rows) (m : existing ∈ rows)
      (mine : (existing.id == id) ≡ true) (same : (l : LectureSchedule) → (change l).id ≡ l.id)
      (tidy : trim (change existing).room ≡ (change existing).room)
      (hours : text_ltb (change existing).start_time (change existing).end_time ≡ true)
      (free : (other : LectureSchedule)
        → other ∈ rows
        → (other.id == id) ≡ false
        → clashes prisma (change existing) other ≡ false) where
    the_one : (x : LectureSchedule) → x ∈ rows → (x.id == id) ≡ true → existing ≡ x
    the_one x k t =
        Distinct-unique same_schedule_id id_symmetric rows existing x sound.one_id m k
          (ground arith)

    changed-IsTimetable : IsTimetable prisma (update_where (λ l. l.id == id) change rows)
    changed-IsTimetable =
        let test = λ (l : LectureSchedule). l.id == id in
        let each : (l : LectureSchedule)
            → l ∈ update_where test change rows
            → (l ≡ change existing) ⊎ (l ∈ rows) =
          λ l k.
            let (y, k', q) = ∈-update_where test change rows k in
            elim (Bool-cases (test y)) [
              | inl t ↦
                  inl (q ∙ ap (λ b. if b then change y else y) t ∙ ap change (sym (the_one y k' t)))
              | inr t ↦
                  inr (subst (λ z. z ∈ rows) (sym (q ∙ ap (λ b. if b then change y else y) t)) k')
            ] in
        record {
          apart =
              Distinct-update_sole (clashes prisma) (clashes_symmetric prisma) test change rows
                (Distinct-weaken same_schedule_id (λ a b. test a && test b) (λ a b h. ground arith)
                  rows sound.one_id)
                (λ x k t y k' u.
                  subst (λ z. clashes prisma (change z) y ≡ false) (the_one x k t) (free y k' u))
                sound.apart;
          one_id =
              Distinct-update_where same_schedule_id id_symmetric test change
                (λ a b. ap (λ z. z == b.id) (same a)) rows sound.one_id;
          tidy = λ l k. elim (each l k) [
            | inl e ↦ subst (λ (z : LectureSchedule). trim z.room ≡ z.room) (sym e) tidy
            | inr k' ↦ sound.tidy l k'
          ];
          hours = λ l k. elim (each l k) [
            | inl e ↦
                subst (λ (z : LectureSchedule). text_ltb z.start_time z.end_time ≡ true) (sym e)
                  hours
            | inr k' ↦ sound.hours l k'
          ];
        }

    pub with_update-IsTimetable :
        IsTimetable prisma (prisma.update_many LectureSchedule (λ l. l.id == id) change rows).0
    with_update-IsTimetable =
        subst (IsTimetable prisma)
          (sym (
            ap (λ (r : List LectureSchedule × ℕ). r.0)
              (prisma.update_many_lem LectureSchedule (λ l. l.id == id) change rows)))
          changed-IsTimetable

  pub off-clashes : (a b : LectureSchedule) → a.is_active ≡ false → clashes prisma a b ≡ false
  unfolding clashes
  off-clashes a b h = ground arith
