-- ===== src/Summary.antt =====
-- getMyAttendanceSummary of backend/src/services/attendance.service.ts: a student's attendances counted
-- over all and by course. The rates, which are decimals, and the order of the courses are left out.
pub mod Laws
use wall_e_campus_assistant.Prelude.{
  ℕ, ◌+◌, ◌≡◌, ◌⊎◌, refl, inl, inr, Bool, true, false, not, ◌&&◌, ◌||◌, Option, none, some, List,
  [], ◌∷◌, map, ∈-map_iff, ◌==◌, same_option, any, count, if◌then◌else◌, ◌∈◌, sym, ap, ◌∙◌, subst,
  arith, Bool-cases, any_iff, any-false, false≢true, map,
}
use wall_e_campus_assistant.Database.Rows.Laws.{Distinct}
use wall_e_campus_assistant.Database.Rows.Single.{count-pos}
use wall_e_campus_assistant.Session.Window.{AttendanceStatus, present, late, absent}
use wall_e_campus_assistant.Session.Store.{Course}

-- A row of findStatusesByStudent.
pub record StatusRow : Type 0 where
  pub status : AttendanceStatus
  pub course : Option Course

pub record Counts : Type 0 where
  pub present_ : ℕ
  pub late_ : ℕ
  pub absent_ : ℕ

pub record Tally : Type 0 where
  pub course : Option Course
  pub counts : Counts

abbrev pub no_counts : Counts
no_counts = record { present_ = 0; late_ = 0; absent_ = 0 }

-- The switch.
abbrev pub counted : AttendanceStatus → Counts → Counts
counted present c = record c { present_ = c.present_ + 1 }
counted late c = record c { late_ = c.late_ + 1 }
counted absent c = record c { absent_ = c.absent_ + 1 }

-- The key of the map; the key of no course is none of a course's.
abbrev pub key_of : Option Course → Option ℕ
key_of none = none
key_of (some course) = some course.id

abbrev pub has_key : Option ℕ → Tally → Bool
has_key key t = same_option (key_of t.course) key

-- The map in the order of its keys; the first row of a course adds its tally.
unfoldable pub add_row : StatusRow → List Tally → List Tally
add_row row [] = record { course = row.course; counts = counted row.status no_counts } ∷ []
add_row row (t ∷ tallies) =
    let rest = add_row row tallies in
    if has_key (key_of row.course) t
    then record t { counts = counted row.status t.counts } ∷ tallies
    else t ∷ rest

unfoldable pub tally_rows : List StatusRow → Counts → List Tally → Counts × List Tally
unfolding add_row
tally_rows [] overall tallies = (overall, tallies)
tally_rows (row ∷ rows) overall tallies =
    tally_rows rows (counted row.status overall) (add_row row tallies)

-- What is presented of counts.
pub record Presented : Type 0 where
  pub counts : Counts
  pub recorded_lectures : ℕ
  pub attended : ℕ

abbrev pub presented : Counts → Presented
presented c = record {
  counts = c;
  recorded_lectures = c.present_ + c.late_ + c.absent_;
  attended = c.present_ + c.late_;
}

unfoldable pub get_my_attendance_summary :
    List StatusRow → Presented × List (Option Course × Presented)
unfolding tally_rows
get_my_attendance_summary rows =
    let (overall, by_course) = tally_rows rows no_counts [] in
    (presented overall, map (λ t. (t.course, presented t.counts)) by_course)
