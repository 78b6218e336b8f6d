-- ===== src/Timetable/Views/Laws.antt =====
-- That a list shows what the page of one lecture shows (backend/src/services/schedule.service.ts).
use wall_e_campus_assistant.Prelude.{
  ◌≡◌, ◌≢◌, ◌↔◌, refl, inl, inr, true, some, List, ◌∈◌, sym, ◌∙◌, subst, arith, ok, >>=-ok,
  Result-cases,
}
use wall_e_campus_assistant.Access.Roles.{
  UserRole, system_owner, university_admin, department_admin, instructor, student,
}
use wall_e_campus_assistant.Cohort.{}
use wall_e_campus_assistant.Database.{Prisma}
use wall_e_campus_assistant.Database.Rows.Laws.{Distinct}
use wall_e_campus_assistant.Session.Store.{LectureSchedule}
use wall_e_campus_assistant.Timetable.{
  TimetableDb, ScheduleFilter, same_schedule_id, find_timetable, build_where,
}
use wall_e_campus_assistant.Timetable.Views.{
  ScheduleActor, ScheduleQuery, student_criteria, shown_to, get_schedule, get_student_timetable,
  resolve_scope, list_schedules, criteria_filter, organization_filter, base_scope, asked_scope,
}
use wall_e_campus_assistant.Timetable.Views.Seen.{
  IsTidy, IsAddressed, criteria_filter-lem, student_filter_iff, shown_to-student_iff,
  get_schedule_iff, student_criteria-IsFilled,
}

module _ (prisma : Prisma) where
  -- A student who has a timetable finds in it exactly the lectures whose own page is shown to them,
  -- when the texts of the lecture's row have no white space at an end.
  pub get_student_timetable_iff :
      (actor : ScheduleActor) (db : TimetableDb) (rows : List LectureSchedule) (l : LectureSchedule)
      → actor.role ≡ student
      → Distinct same_schedule_id db.schedules
      → l ∈ db.schedules
      → IsTidy l
      → get_student_timetable prisma actor db ≡ ok rows
      → (l ∈ rows) ↔ (get_schedule prisma l.id actor db ≡ ok l)
  unfolding get_student_timetable find_timetable
  get_student_timetable_iff actor db rows l role one_id m tidy h =
      let (c, e, listed) = >>=-ok (student_criteria prisma actor.id db) _ h in
      let test =
        build_where prisma (criteria_filter c (organization_filter actor.organization_id)) in
      let q : prisma.find_all LectureSchedule test db.schedules ≡ rows = ground arith in
      let (to, from) = prisma.find_all_iff LectureSchedule test db.schedules l in
      let asked =
        student_filter_iff prisma c actor.organization_id l
          (student_criteria-IsFilled prisma actor.id db c e) tidy in
      let shown = shown_to-student_iff prisma actor db l role in
      let page = get_schedule_iff prisma actor db l one_id m in
      (
        λ k.
            let (org, addressed) = asked.0 (to (subst (λ z. l ∈ z) (sym q) k)).1 in
            page.1 (org, shown.1 (c, e, addressed)),
        λ found.
            let (org, seen) = page.0 found in
            let (c', e', addressed) = shown.0 seen in
            let same : c' ≡ c = ground arith in
            subst (λ z. l ∈ z) q
              (from (m, asked.1 (org, subst (λ z. IsAddressed l z) same addressed))),
      )

  shown_to-other :
      (actor : ScheduleActor) (db : TimetableDb) (l : LectureSchedule)
      → actor.role ≢ student
      → (actor.role ≡ instructor → l.instructor_id ≡ actor.id)
      → shown_to prisma actor db l ≡ ok l
  unfolding shown_to
  shown_to-other actor db l not_student own = go actor.role refl
    where
      go : (role : UserRole) → actor.role ≡ role → shown_to prisma actor db l ≡ ok l
      go student e = absurd (not_student e)
      go instructor e = let mine = own e in rw e (ground arith)
      go system_owner e = rw e
      go university_admin e = rw e
      go department_admin e = rw e

  build_where-organization :
      (filter : ScheduleFilter) (l : LectureSchedule)
      → build_where prisma filter l ≡ true
      → l.organization_id ≡ filter.organization_id
  unfolding build_where
  build_where-organization filter l h = ground arith

  asked_instructor :
      (query : ScheduleQuery) (actor : ScheduleActor) (l : LectureSchedule)
      → build_where prisma (asked_scope query (some actor.id) actor) l ≡ true
      → l.instructor_id ≡ actor.id
  unfolding build_where
  asked_instructor query actor l h = ground arith

  scope-organization :
      (query : ScheduleQuery) (actor : ScheduleActor) (db : TimetableDb) (filter : ScheduleFilter)
      → resolve_scope prisma query actor db ≡ ok filter
      → filter.organization_id ≡ actor.organization_id
  unfolding resolve_scope
  scope-organization query actor db filter h = go actor.role refl
    where
      go : (role : UserRole) → actor.role ≡ role → filter.organization_id ≡ actor.organization_id
      go student e =
          let h' = rw e at h in
          elim (Result-cases (student_criteria prisma actor.id db)) [
            | inl (c, q) ↦ let h'' = rw q at h' in ground arith
            | inr (x, q) ↦ let h'' = rw q at h' in cc
          ]
      go instructor e = let h' = rw e at h in ground arith
      go system_owner e = let h' = rw e at h in ground arith
      go university_admin e = let h' = rw e at h in ground arith
      go department_admin e = let h' = rw e at h in ground arith

  scope_shown :
      (query : ScheduleQuery) (actor : ScheduleActor) (db : TimetableDb) (filter : ScheduleFilter)
      (l : LectureSchedule)
      → resolve_scope prisma query actor db ≡ ok filter
      → IsTidy l
      → build_where prisma filter l ≡ true
      → shown_to prisma actor db l ≡ ok l
  unfolding resolve_scope
  scope_shown query actor db filter l h tidy t = go actor.role refl
    where
      go : (role : UserRole) → actor.role ≡ role → shown_to prisma actor db l ≡ ok l
      go student e =
          let h' = rw e at h in
          elim (Result-cases (student_criteria prisma actor.id db)) [
            | inl (c, q) ↦
                let h'' = rw q at h' in
                let same : criteria_filter c (base_scope query actor) ≡ filter = ground arith in
                (shown_to-student_iff prisma actor db l e).1 (
                  c,
                  q,
                  criteria_filter-lem prisma c (base_scope query actor) l
                      (student_criteria-IsFilled prisma actor.id db c q) tidy
                      (subst (λ z. build_where prisma z l ≡ true) (sym same) t),
                )
            | inr (x, q) ↦ let h'' = rw q at h' in cc
          ]
      go instructor e =
          let h' = rw e at h in
          let same : asked_scope query (some actor.id) actor ≡ filter = ground arith in
          shown_to-other actor db l (λ s. cc)
            (λ s.
              asked_instructor query actor l
                (subst (λ z. build_where prisma z l ≡ true) (sym same) t))
      go system_owner e = shown_to-other actor db l (λ s. cc) (λ s. cc)
      go university_admin e = shown_to-other actor db l (λ s. cc) (λ s. cc)
      go department_admin e = shown_to-other actor db l (λ s. cc) (λ s. cc)

  -- A list never shows more than the pages of the lectures do: whatever the query asks for, each
  -- lecture of the list is of the asker's organization and its own page is shown to them, when the
  -- texts of its row have no white space at an end.
  pub list_schedules_shown :
      (query : ScheduleQuery) (actor : ScheduleActor) (db : TimetableDb)
      (rows : List LectureSchedule) (l : LectureSchedule)
      → Distinct same_schedule_id db.schedules
      → IsTidy l
      → list_schedules prisma query actor db ≡ ok rows
      → l ∈ rows
      → (l.organization_id ≡ actor.organization_id) × (get_schedule prisma l.id actor db ≡ ok l)
  unfolding list_schedules find_timetable
  list_schedules_shown query actor db rows l one_id tidy h k =
      let (filter, e, listed) = >>=-ok (resolve_scope prisma query actor db) _ h in
      let test = build_where prisma filter in
      let q : prisma.find_all LectureSchedule test db.schedules ≡ rows = ground arith in
      let (m, t) =
        (prisma.find_all_iff LectureSchedule test db.schedules l).0
          (subst (λ z. l ∈ z) (sym q) k) in
      let org = build_where-organization filter l t ∙ scope-organization query actor db filter e in
      (
        org,
        (get_schedule_iff prisma actor db l one_id m).1
            (org, scope_shown query actor db filter l e tidy t),
      )
