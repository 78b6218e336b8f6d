-- ===== src/Tests/Accounts.antt =====
-- Two accounts and a request of a student's phone; a list of rows in pages; a student's attendances.
use wall_e_campus_assistant.Database.Rows.{update_where}
use wall_e_campus_assistant.Prelude.{
  ℕ, ◌≡◌, refl, Option, some, none, List, [], ◌∷◌, ◌∈◌, arith, true, ok, ap, Result, if◌then◌else◌,
  count,
}
use wall_e_campus_assistant.Text.{Text, text_eq, to_lower_case, trim}
use wall_e_campus_assistant.Access.Roles.{student, instructor}
use wall_e_campus_assistant.Cohort.Semester.{codes, strip_prefix}
use wall_e_campus_assistant.Database.Reference.{reference}
use wall_e_campus_assistant.Errors.{Failure}
use wall_e_campus_assistant.Session.Window.{AttendanceStatus}
use wall_e_campus_assistant.Account.Verified.{HasToken}
use wall_e_campus_assistant.Account.{
  Account, active, AuthEnv, dual, TokenLibraries, declared_platform, authenticate,
}
use wall_e_campus_assistant.Account.Laws.{
  IsAdmitted, IsApart, authenticate-IsAdmitted, authenticate-IsApart,
}
use wall_e_campus_assistant.Paging.{walk_pages, total_pages_for, walk_pages-all}
use wall_e_campus_assistant.Session.Window.{present, late}
use wall_e_campus_assistant.Session.Store.{Course}
use wall_e_campus_assistant.Summary.Laws.{
  of_status, is_status, is_row, get_my_attendance_summary_exact,
}
use wall_e_campus_assistant.Summary.{StatusRow, Presented, key_of, get_my_attendance_summary}

abbrev pupil : Account
pupil = record {
  id = 30;
  auth_user_id = some (codes "u30");
  email = codes "a@b";
  role = student;
  account_status = active;
  is_verified = true;
  is_active = true;
  organization_id = 1;
  department_id = none;
}

abbrev teacher : Account
teacher = record pupil { id = 20; auth_user_id = none; email = codes "t@b"; role = instructor }

abbrev accounts : List Account
accounts = pupil ∷ teacher ∷ []

abbrev auth_env : AuthEnv
auth_env = record {
  auth_provider = dual;
  supabase_url = some (codes "https://x/");
  supabase_jwt_audience = codes "authenticated";
  jwt_secret = codes "k";
}

-- The provider's tokens are "s", for a new email of account u30; every other token is of the app's own
-- and for account 30.
abbrev some_tokens : TokenLibraries
some_tokens = record {
  decode_iss =
      λ token. if text_eq token (codes "s") then some (codes "https://x/auth/v1") else none;
  jwt_verify = λ token issuer audience.
      some (record { sub = some (codes "u30"); email = some (codes " C@B") });
  legacy_verify = λ token secret. some 30;
}

abbrev renamed : Account
renamed = record pupil { email = codes "c@b" }

abbrev signed : Option Text
signed = some (codes "Bearer s")

abbrev phone : Option Text
phone = some (codes "Mobile")

let_in :
    authenticate reference some_tokens auth_env signed phone accounts
    ≡ (renamed ∷ teacher ∷ [], ok renamed)
unfolding authenticate strip_prefix text_eq trim to_lower_case update_where
let_in = refl

accounts-IsApart : IsApart accounts
unfolding text_eq
accounts-IsApart = ((refl, (refl, tt)), (refl, (refl, tt)))

authenticate-IsApart_example :
    IsApart (authenticate reference some_tokens auth_env signed phone accounts).0
authenticate-IsApart_example =
    authenticate-IsApart reference some_tokens auth_env signed phone accounts accounts-IsApart

authenticate-IsAdmitted_example :
    (renamed ∈ (authenticate reference some_tokens auth_env signed phone accounts).0)
    × IsAdmitted renamed (declared_platform phone)
    × ((old : Account) × (old ∈ accounts)
        × (renamed.id ≡ old.id)
        × HasToken some_tokens auth_env signed old)
authenticate-IsAdmitted_example =
    authenticate-IsAdmitted reference some_tokens auth_env signed phone accounts renamed
      (ap (λ (r : List Account × Result Failure Account). r.1) let_in)

abbrev five_rows : List ℕ
five_rows = 1 ∷ 2 ∷ 3 ∷ 4 ∷ 5 ∷ []

walk_pages-all_example : walk_pages (total_pages_for 5 2) 2 1 five_rows ≡ some five_rows
walk_pages-all_example = walk_pages-all 2 five_rows (omega arith)

abbrev logic_course : Course
logic_course = record { id = 5; course_code = codes "L1"; course_name = codes "Logic" }

abbrev my_rows : List StatusRow
my_rows =
    record { status = present; course = some logic_course }
    ∷ record { status = late; course = none }
    ∷ record { status = late; course = some logic_course }
    ∷ []

get_my_attendance_summary_exact_example :
    ((s : AttendanceStatus)
      → of_status s (get_my_attendance_summary my_rows).0.counts
        ≡ count (λ r. is_status s r.status) my_rows)
    × ((entry : Option Course × Presented)
        → entry ∈ (get_my_attendance_summary my_rows).1
        → (s : AttendanceStatus)
        → of_status s entry.1.counts ≡ count (is_row (key_of entry.0) s) my_rows)
    × ((r : StatusRow)
        → r ∈ my_rows
        → (entry : Option Course × Presented) × (entry ∈ (get_my_attendance_summary my_rows).1)
          × (key_of entry.0 ≡ key_of r.course))
get_my_attendance_summary_exact_example = get_my_attendance_summary_exact my_rows
