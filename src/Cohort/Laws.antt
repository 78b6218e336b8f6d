-- ===== src/Cohort/Laws.antt =====
-- When a profile is placed in a cohort, and which lectures its cohort matches
-- (backend/src/utils/cohort.ts).
use wall_e_campus_assistant.Prelude.{
  ℕ, ◌≡◌, ◌≢◌, ◌↔◌, refl, inl, inr, true, false, Option, some, none, List, [], ◌∷◌, arith, not,
  keep, is_none, ∈-keep_iff, ◌∈◌, ap, subst,
}
use wall_e_campus_assistant.Text.{Text, trim, to_lower_case, text_eq}
use wall_e_campus_assistant.Cohort.{
  ScheduleCriteria, CohortProfileFields, ScheduleMatchField, faculty, department, level, semester,
  section, schedule_match_fields, is_filled, is_filled_text, text_of, level_of, cohort_matches,
  resolved, criteria_for, with_semester, resolve_filled, resolve_cohort, List, ℕ, Option,
  parse_semester_number, some, missing_fields, semester_value,
}

pub text_eq_iff : (s t : Text) → (text_eq s t ≡ true) ↔ (s ≡ t)
unfolding text_eq
text_eq_iff [] [] = (λ h. refl, λ e. refl)
text_eq_iff (a ∷ s) (b ∷ t) = ground (arith, text_eq_iff s t)
text_eq_iff [] (b ∷ t) = (λ h. cc, λ h. cc)
text_eq_iff (a ∷ s) [] = (λ h. cc, λ h. cc)

-- The address that two texts are compared by.
abbrev pub plain : Text → Text
plain s = to_lower_case (trim s)

-- A lecture is addressed to a cohort exactly if faculty, department and section are the same up to
-- case and to white space at their ends, and level and semester are the same numbers.
pub cohort_matches_iff :
    (schedule criteria : ScheduleCriteria)
    → (cohort_matches schedule criteria ≡ true) ↔ (
        (plain schedule.faculty ≡ plain criteria.faculty)
        × (plain schedule.department ≡ plain criteria.department)
        × (plain schedule.section ≡ plain criteria.section)
        × (schedule.level ≡ criteria.level)
        × (schedule.semester ≡ criteria.semester))
unfolding cohort_matches
cohort_matches_iff s c = ground (
  arith,
  text_eq_iff (plain s.faculty) (plain c.faculty),
  text_eq_iff (plain s.department) (plain c.department),
  text_eq_iff (plain s.section) (plain c.section),
)

resolved-injective : {a b : ScheduleCriteria} → resolved a ≡ resolved b → a ≡ b
resolved-injective h = cc

criteria-semester :
    (p : CohortProfileFields) (n : ℕ) {c : ScheduleCriteria} → criteria_for p n ≡ c → n ≡ c.semester
unfolding criteria_for
criteria-semester p n e = ap (λ (k : ScheduleCriteria). k.semester) e

with_semester_iff :
    (p : CohortProfileFields) (o : Option ℕ) (c : ScheduleCriteria)
    → (with_semester p o ≡ resolved c) ↔ ((o ≡ some c.semester) × (criteria_for p c.semester ≡ c))
unfolding with_semester
with_semester_iff p none c = (λ h. cc, λ h. cc)
with_semester_iff p (some n) c = (
  λ h.
      let e = resolved-injective h in
      let m = criteria-semester p n e in (cc m, subst (λ k. criteria_for p k ≡ c) m e),
  λ (h, e). cc,
)

resolve_filled_iff :
    (p : CohortProfileFields) (l : List ScheduleMatchField) (c : ScheduleCriteria)
    → (resolve_filled p l ≡ resolved c) ↔ (
        (l ≡ [])
        × (parse_semester_number (semester_value p.semester) ≡ some c.semester)
        × (criteria_for p c.semester ≡ c))
unfolding resolve_filled
resolve_filled_iff p [] c =
    let (to, from) = with_semester_iff p (parse_semester_number (semester_value p.semester)) c in
    (λ h. (refl, (to h).0, (to h).1), λ (n, q, e). from (q, e))
resolve_filled_iff p (f ∷ l) c = (λ h. cc, λ h. cc)

keep-eq-nil_iff :
    (p : CohortProfileFields)
    → (keep (λ f. not (is_filled p f)) schedule_match_fields ≡ []) ↔ (
        (is_filled p faculty ≡ true)
        × (is_filled p department ≡ true)
        × (is_filled p level ≡ true)
        × (is_filled p semester ≡ true)
        × (is_filled p section ≡ true))
keep-eq-nil_iff p = ground arith

resolve_cohort-some :
    (p : CohortProfileFields)
    → resolve_cohort (some p)
      ≡ resolve_filled p (keep (λ f. not (is_filled p f)) schedule_match_fields)
unfolding resolve_cohort
resolve_cohort-some p = refl

complete :
    (p : CohortProfileFields)
    → keep (λ f. not (is_filled p f)) schedule_match_fields ≡ []
    → (f : ScheduleMatchField) → is_filled p f ≡ true
complete p h faculty = ((keep-eq-nil_iff p).0 h).0
complete p h department = ((keep-eq-nil_iff p).0 h).1
complete p h level = ((keep-eq-nil_iff p).0 h).2
complete p h semester = ((keep-eq-nil_iff p).0 h).3
complete p h section = ((keep-eq-nil_iff p).0 h).4

pub resolve_cohort-criteria_for :
    (p : CohortProfileFields) (c : ScheduleCriteria)
    → (resolve_cohort (some p) ≡ resolved c) ↔ (
        ((f : ScheduleMatchField) → is_filled p f ≡ true)
        × (parse_semester_number (semester_value p.semester) ≡ some c.semester)
        × (criteria_for p c.semester ≡ c))
resolve_cohort-criteria_for p c =
    let (to, from) =
      resolve_filled_iff p (keep (λ f. not (is_filled p f)) schedule_match_fields) c in
    rw (resolve_cohort-some p) (
      λ h. (complete p (to h).0, (to h).1, (to h).2),
      λ (all, q, e). from (
        (keep-eq-nil_iff p).1 (all faculty, all department, all level, all semester, all section),
        q,
        e,
      ),
    )

-- The fields of a profile are present, and are those of a cohort.
pub record HasFields (p : CohortProfileFields) (c : ScheduleCriteria) : Type 0 where
  pub same_faculty : p.faculty ≡ some c.faculty
  pub same_department : p.department ≡ some c.department
  pub same_level : p.level ≡ some c.level
  pub same_section : p.section ≡ some c.section

filled-eq-some : (o : Option Text) (s : Text) → is_filled_text o ≡ true → text_of o ≡ s → o ≡ some s
unfolding is_filled_text
filled-eq-some none s h e = cc
filled-eq-some (some t) s h e = ap some e

level-eq-some : (o : Option ℕ) (n : ℕ) → not (is_none o) ≡ true → level_of o ≡ n → o ≡ some n
level-eq-some none n h e = cc
level-eq-some (some m) n h e = ap some e

criteria_for-HasFields :
    (p : CohortProfileFields) (n : ℕ) (c : ScheduleCriteria)
    → ((f : ScheduleMatchField) → is_filled p f ≡ true)
    → criteria_for p n ≡ c
    → HasFields p c
unfolding is_filled criteria_for
criteria_for-HasFields p n c all e = record {
  same_faculty =
      filled-eq-some p.faculty c.faculty (all faculty) (ap (λ (k : ScheduleCriteria). k.faculty) e);
  same_department =
      filled-eq-some p.department c.department (all department)
        (ap (λ (k : ScheduleCriteria). k.department) e);
  same_level = level-eq-some p.level c.level (all level) (ap (λ (k : ScheduleCriteria). k.level) e);
  same_section =
      filled-eq-some p.section c.section (all section) (ap (λ (k : ScheduleCriteria). k.section) e);
}

HasFields-criteria_for :
    (p : CohortProfileFields) (c : ScheduleCriteria) → HasFields p c → criteria_for p c.semester ≡ c
unfolding criteria_for
HasFields-criteria_for p c has =
    let a = has.same_faculty in
    let b = has.same_department in
    let d = has.same_level in let e = has.same_section in rw (a, b, d, e) refl

-- A profile is placed in a cohort exactly if all five fields are filled and the semester can be
-- read; the cohort then has the profile's faculty, department, level and section, each its own, and
-- the semester that was read.
pub resolve_cohort_iff :
    (p : CohortProfileFields) (c : ScheduleCriteria)
    → (resolve_cohort (some p) ≡ resolved c) ↔ (
        ((f : ScheduleMatchField) → is_filled p f ≡ true)
        × (parse_semester_number (semester_value p.semester) ≡ some c.semester)
        × HasFields p c)
resolve_cohort_iff p c =
    let (to, from) = resolve_cohort-criteria_for p c in
    (
      λ h. ((to h).0, (to h).1, criteria_for-HasFields p c.semester c (to h).0 (to h).2),
      λ (all, q, has). from (all, q, HasFields-criteria_for p c has),
    )

with_semester-ne-missing :
    (p : CohortProfileFields) (o : Option ℕ) (fs : List ScheduleMatchField)
    → with_semester p o ≢ missing_fields fs
unfolding with_semester
with_semester-ne-missing p none fs = cc
with_semester-ne-missing p (some n) fs = cc

resolve_filled-missing :
    (p : CohortProfileFields) (l fs : List ScheduleMatchField)
    → resolve_filled p l ≡ missing_fields fs
    → (l ≡ fs) × (fs ≢ [])
unfolding resolve_filled
resolve_filled-missing p [] fs h = absurd (with_semester-ne-missing p _ fs h)
resolve_filled-missing p (f ∷ l) fs h = (cc, ground arith)

every_field : (f : ScheduleMatchField) → f ∈ schedule_match_fields
every_field faculty = inl refl
every_field department = inr (inl refl)
every_field level = inr (inr (inl refl))
every_field semester = inr (inr (inr (inl refl)))
every_field section = inr (inr (inr (inr (inl refl))))

-- When fields are reported missing, they are exactly those that are not filled, and there is one.
pub resolve_cohort-missing_fields :
    (p : CohortProfileFields) (fs : List ScheduleMatchField)
    → resolve_cohort (some p) ≡ missing_fields fs
    → (fs ≢ []) × ((f : ScheduleMatchField) → (f ∈ fs) ↔ (is_filled p f ≡ false))
resolve_cohort-missing_fields p fs h =
    let (e, n) = resolve_filled-missing p _ fs (rw (resolve_cohort-some p) at h) in
    let lookup =
      λ (f : ScheduleMatchField). ∈-keep_iff (λ g. not (is_filled p g)) f schedule_match_fields in
    (
      n,
      λ f. rw (← e) (
        λ m. let q = ((lookup f).0 m).1 in ground arith,
        λ q. (lookup f).1 (every_field f, ground arith),
      ),
    )
