-- ===== src/Cohort.antt =====
-- backend/src/utils/cohort.ts and the semester reader of backend/src/types/schedule.types.ts: which
-- students a lecture is addressed to. A field that is null and one that is undefined are `none`.
pub mod Semester
pub mod Laws
use wall_e_campus_assistant.Prelude.{
  ℕ, Bool, true, false, ◌&&◌, not, Option, some, none, List, [], ◌∷◌, ◌==◌, keep, if◌then◌else◌,
  is_none,
}
use wall_e_campus_assistant.Text.{Text, trim, to_lower_case, text_eq}
use Semester.{parse_semester_number, SemesterValue, text}

pub record ScheduleCriteria : Type 0 where
  pub faculty : Text
  pub department : Text
  pub level : ℕ
  pub semester : ℕ
  pub section : Text

pub record CohortProfileFields : Type 0 where
  pub faculty : Option Text
  pub department : Option Text
  pub level : Option ℕ
  pub semester : Option Text
  pub section : Option Text

pub data ScheduleMatchField : Type 0 where
  faculty department level semester section : ScheduleMatchField

abbrev pub schedule_match_fields : List ScheduleMatchField
schedule_match_fields = faculty ∷ department ∷ level ∷ semester ∷ section ∷ []

pub data CohortResolution : Type 0 where
  resolved : ScheduleCriteria → CohortResolution
  missing_fields : List ScheduleMatchField → CohortResolution
  unreadable_semester : Option Text → CohortResolution

unfoldable pub is_filled_text : Option Text → Bool
unfolding trim text_eq
is_filled_text none = false
is_filled_text (some s) = not (text_eq (trim s) [])

-- isFilled(profile[field]); a number is filled unless it is null.
unfoldable pub is_filled : CohortProfileFields → ScheduleMatchField → Bool
unfolding is_filled_text
is_filled profile faculty = is_filled_text profile.faculty
is_filled profile department = is_filled_text profile.department
is_filled profile level = not (is_none profile.level)
is_filled profile semester = is_filled_text profile.semester
is_filled profile section = is_filled_text profile.section

-- `profile.faculty!`: a text that the check above has found.
abbrev pub text_of : Option Text → Text
text_of none = []
text_of (some s) = s

abbrev pub level_of : Option ℕ → ℕ
level_of none = 0
level_of (some n) = n

abbrev pub semester_value : Option Text → SemesterValue
semester_value none = SemesterValue.null
semester_value (some s) = text s

unfoldable pub criteria_for : CohortProfileFields → ℕ → ScheduleCriteria
criteria_for profile semester_number = record {
  faculty = text_of profile.faculty;
  department = text_of profile.department;
  level = level_of profile.level;
  semester = semester_number;
  section = text_of profile.section;
}

unfoldable pub with_semester : CohortProfileFields → Option ℕ → CohortResolution
unfolding criteria_for
with_semester profile none = unreadable_semester profile.semester
with_semester profile (some n) = resolved (criteria_for profile n)

unfoldable pub resolve_filled : CohortProfileFields → List ScheduleMatchField → CohortResolution
unfolding with_semester
resolve_filled profile [] =
    with_semester profile (parse_semester_number (semester_value profile.semester))
resolve_filled profile (field ∷ fields) = missing_fields (field ∷ fields)

unfoldable pub resolve_cohort : Option CohortProfileFields → CohortResolution
unfolding resolve_filled is_filled
resolve_cohort none = missing_fields schedule_match_fields
resolve_cohort (some profile) =
    resolve_filled profile (keep (λ field. not (is_filled profile field)) schedule_match_fields)

-- The local `same` of cohortMatches.
unfoldable pub same_text : Text → Text → Bool
same_text a b = text_eq (to_lower_case (trim a)) (to_lower_case (trim b))

-- CohortScheduleFields has the fields of ScheduleCriteria.
unfoldable pub cohort_matches : ScheduleCriteria → ScheduleCriteria → Bool
unfolding same_text
cohort_matches schedule criteria =
    same_text schedule.faculty criteria.faculty
    && same_text schedule.department criteria.department
    && same_text schedule.section criteria.section
    && schedule.level == criteria.level
    && schedule.semester == criteria.semester
