-- ===== src/Tests/Cohorts.antt =====
-- Which cohort a student belongs to: the theorems at a concrete profile.
use wall_e_campus_assistant.Prelude.{◌≡◌, refl, some, true}
use wall_e_campus_assistant.Cohort.{
  CohortProfileFields, ScheduleMatchField, is_filled, resolve_cohort,
}
use wall_e_campus_assistant.Cohort.Semester.{text, codes, parse_semester_number}
use wall_e_campus_assistant.Cohort.Semester.Laws.{}
use wall_e_campus_assistant.Cohort.Laws.{resolve_cohort_iff, HasFields}
use wall_e_campus_assistant.Tests.{profile, cohort}

resolve_cohort_iff_example :
    ((f : ScheduleMatchField) → is_filled profile f ≡ true)
    × (parse_semester_number (text (codes "Fall")) ≡ some 1)
    × HasFields profile cohort
unfolding resolve_cohort parse_semester_number
resolve_cohort_iff_example = (resolve_cohort_iff profile cohort).0 refl

abbrev unplaced : CohortProfileFields
unplaced = record profile { section = some (codes "  ") }
