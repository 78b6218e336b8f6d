-- ===== src/Timetable/Views/Seen.antt =====
-- When a lecture is shown to whom (backend/src/services/schedule.service.ts).
use wall_e_campus_assistant.Prelude.{
  ℕ, ◌≡◌, ◌↔◌, inl, inr, true, Option, some, none, List, [], ◌∷◌, ◌∈◌, sym, ap, ◌∙◌, subst, arith,
  Bool-cases, false≢true, ◌==◌, ok, >>=-ok, find, find_sound, find-none, same_truth, Option-cases,
  ==_refl, false≢true,
}
use wall_e_campus_assistant.Text.{Text, trim, to_lower_case, text_eq}
use wall_e_campus_assistant.Access.Roles.{student}
use wall_e_campus_assistant.Cohort.{
  ScheduleCriteria, CohortProfileFields, resolved, resolve_cohort, cohort_matches, is_filled_text,
  is_filled, same_text, text_of, criteria_for, faculty, department, section,
}
use wall_e_campus_assistant.Cohort.Laws.{text_eq_iff, resolve_cohort-criteria_for}
use wall_e_campus_assistant.Database.{Prisma}
use wall_e_campus_assistant.Database.Rows.Laws.{Distinct, Distinct-unique}
use wall_e_campus_assistant.Session.Store.{LectureSchedule}
use wall_e_campus_assistant.Timetable.{
  TimetableDb, ScheduleFilter, same_schedule_id, asked_text, same_text_as, build_where,
}
use wall_e_campus_assistant.Timetable.Service.{schedule_in_org, load_in_org}
use wall_e_campus_assistant.Timetable.Views.{
  ScheduleActor, lecture_address, criteria_or_throw, student_criteria, shown_to, get_schedule,
  criteria_filter, organization_filter,
}

-- A row whose texts have no white space at an end.
pub record IsTidy (l : LectureSchedule) : Type 0 where
  pub faculty_tidy : trim l.faculty ≡ l.faculty
  pub department_tidy : trim l.department ≡ l.department
  pub section_tidy : trim l.section ≡ l.section

-- What a student's criteria have.
pub record IsFilled (c : ScheduleCriteria) : Type 0 where
  pub faculty_filled : is_filled_text (some c.faculty) ≡ true
  pub department_filled : is_filled_text (some c.department) ≡ true
  pub section_filled : is_filled_text (some c.section) ≡ true

filled-text_of :
    (o : Option Text) → is_filled_text o ≡ true → is_filled_text (some (text_of o)) ≡ true
unfolding is_filled_text
filled-text_of none h = absurd cc
filled-text_of (some s) h = h

criteria_of_profile :
    (p : CohortProfileFields) (c : ScheduleCriteria)
    → resolve_cohort (some p) ≡ resolved c
    → IsFilled c
unfolding is_filled criteria_for
criteria_of_profile p c h =
    let (all, _, e) = (resolve_cohort-criteria_for p c).0 h in
    record {
      faculty_filled =
          subst (λ (z : ScheduleCriteria). is_filled_text (some z.faculty) ≡ true) e
            (filled-text_of p.faculty (all faculty));
      department_filled =
          subst (λ (z : ScheduleCriteria). is_filled_text (some z.department) ≡ true) e
            (filled-text_of p.department (all department));
      section_filled =
          subst (λ (z : ScheduleCriteria). is_filled_text (some z.section) ≡ true) e
            (filled-text_of p.section (all section));
    }

criteria-IsFilled :
    (o : Option CohortProfileFields) (c : ScheduleCriteria)
    → criteria_or_throw (resolve_cohort o) ≡ ok c
    → IsFilled c
unfolding criteria_or_throw resolve_cohort
criteria-IsFilled none c h = cc
criteria-IsFilled (some p) c h = criteria_of_profile p c (ground arith)

abbrev pub IsAddressed : LectureSchedule → ScheduleCriteria → Type 0
IsAddressed l c = (cohort_matches (lecture_address l) c ≡ true) × (l.is_active ≡ true)

module _ (prisma : Prisma) where
  -- Trimmed on the one side only is enough for a column that has nothing to trim.
  asked-same_text :
      (wanted value : Text)
      → is_filled_text (some wanted) ≡ true
      → trim value ≡ value
      → asked_text prisma (some wanted) value ≡ same_text value wanted
  unfolding is_filled_text same_text_as same_text
  asked-same_text [] value filled tidy = absurd (ground (arith, trim, text_eq))
  asked-same_text (c ∷ wanted) value filled tidy =
      let insensitive = prisma.equals_insensitive_iff value (trim (c ∷ wanted)) in
      let alike = text_eq_iff (to_lower_case (trim value)) (to_lower_case (trim (c ∷ wanted))) in
      let same = ap to_lower_case tidy in
      same_truth _ _ (λ h. alike.1 (same ∙ insensitive.0 h))
        (λ h. insensitive.1 (sym same ∙ alike.0 h))

  -- The part of a filter that criteria make.
  pub criteria_filter-lem :
      (c : ScheduleCriteria) (filter : ScheduleFilter) (l : LectureSchedule)
      → IsFilled c
      → IsTidy l
      → build_where prisma (criteria_filter c filter) l ≡ true
      → IsAddressed l c
  unfolding build_where cohort_matches
  criteria_filter-lem c filter l filled tidy h =
      let f = asked-same_text c.faculty l.faculty filled.faculty_filled tidy.faculty_tidy in
      let d =
        asked-same_text c.department l.department filled.department_filled tidy.department_tidy in
      let s = asked-same_text c.section l.section filled.section_filled tidy.section_tidy in
      (ground arith, ground arith)

  pub student_filter_iff :
      (c : ScheduleCriteria) (organization_id : ℕ) (l : LectureSchedule)
      → IsFilled c
      → IsTidy l
      → (build_where prisma (criteria_filter c (organization_filter organization_id)) l ≡ true)
        ↔ ((l.organization_id ≡ organization_id) × IsAddressed l c)
  unfolding build_where cohort_matches
  student_filter_iff c organization_id l filled tidy =
      let f = asked-same_text c.faculty l.faculty filled.faculty_filled tidy.faculty_tidy in
      let d =
        asked-same_text c.department l.department filled.department_filled tidy.department_tidy in
      let s = asked-same_text c.section l.section filled.section_filled tidy.section_tidy in
      (λ h. (ground arith, (ground arith, ground arith)), λ h. ground arith)

  find_by_id :
      (l : LectureSchedule) (rows : List LectureSchedule)
      → Distinct same_schedule_id rows
      → l ∈ rows
      → prisma.find_unique LectureSchedule (λ z. z.id == l.id) rows ≡ some l
  find_by_id l rows one_id m =
      let test = λ (z : LectureSchedule). z.id == l.id in
      let e = prisma.find_unique_lem LectureSchedule test rows in
      elim (Option-cases (find test rows)) [
        | inl none_found ↦
            absurd (false≢true (sym (find-none test rows none_found m) ∙ ==_refl l.id))
        | inr (x, found) ↦
            let (k, t) = find_sound test rows found in
            e
            ∙ found
            ∙ ap some (Distinct-unique same_schedule_id (λ a b. ground arith) rows x l one_id k m t)
      ]

  load_in_org_iff :
      (l : LectureSchedule) (organization_id : ℕ) (db : TimetableDb)
      → Distinct same_schedule_id db.schedules
      → l ∈ db.schedules
      → (load_in_org prisma l.id organization_id db ≡ ok l) ↔ (l.organization_id ≡ organization_id)
  unfolding load_in_org schedule_in_org
  load_in_org_iff l organization_id db one_id m =
      rw (find_by_id l db.schedules one_id m) (λ h. ground arith, λ h. ground arith)

  -- The lecture of another organization is not found.
  loaded_of_org :
      (id organization_id : ℕ) (db : TimetableDb) (l : LectureSchedule)
      → load_in_org prisma id organization_id db ≡ ok l
      → l.organization_id ≡ organization_id
  unfolding load_in_org schedule_in_org
  loaded_of_org id organization_id db l h = ground arith

  pub shown_to-student_iff :
      (actor : ScheduleActor) (db : TimetableDb) (l : LectureSchedule)
      → actor.role ≡ student
      → (shown_to prisma actor db l ≡ ok l)
        ↔ ((c : ScheduleCriteria) × (student_criteria prisma actor.id db ≡ ok c) × IsAddressed l c)
  unfolding shown_to
  shown_to-student_iff actor db l role = rw role (
    λ h.
        let (c, e, shown) = >>=-ok (student_criteria prisma actor.id db) _ h in
        (c, e, (ground arith, ground arith)),
    λ (c, e, (here, on)). rw e (ground arith),
  )

  pub get_schedule_iff :
      (actor : ScheduleActor) (db : TimetableDb) (l : LectureSchedule)
      → Distinct same_schedule_id db.schedules
      → l ∈ db.schedules
      → (get_schedule prisma l.id actor db ≡ ok l)
        ↔ ((l.organization_id ≡ actor.organization_id) × (shown_to prisma actor db l ≡ ok l))
  unfolding get_schedule load_in_org schedule_in_org
  get_schedule_iff actor db l one_id m =
      rw (find_by_id l db.schedules one_id m)
        (elim (Bool-cases (l.organization_id == actor.organization_id)) [
          | inl e ↦ rw e (λ h. (ground arith, h), λ (q, h). h)
          | inr e ↦ rw e (λ h. cc, λ (q, h). ground arith)
        ])

  pub student_criteria-IsFilled :
      (user : ℕ) (db : TimetableDb) (c : ScheduleCriteria)
      → student_criteria prisma user db ≡ ok c
      → IsFilled c
  unfolding student_criteria
  student_criteria-IsFilled user db c h = criteria-IsFilled _ c h
