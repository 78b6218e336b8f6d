-- ===== src/Access/Courses.antt =====
-- backend/src/utils/course-access.ts. The role of a CourseActor is a string there; the values that
-- are not a UserRole fall through every test as STUDENT does.
use wall_e_campus_assistant.Prelude.{
  ℕ, Bool, true, false, ◌&&◌, ◌||◌, not, Option, List, ◌≡◌, ◌↔◌, ◌⊎◌, ◌==◌, any, if◌then◌else◌,
  same_option, is_none, arith, [], ◌∷◌, ◌∈◌,
}
use wall_e_campus_assistant.Access.Roles.{
  UserRole, is_system_owner, is_university_admin, is_department_admin, is_instructor, instructor,
}

pub record CourseActor : Type 0 where
  pub id : ℕ
  pub role : UserRole
  pub department_id : Option ℕ

-- `lecture_schedules` holds the instructor's id of each active lecture of the course.
pub record CourseForAccess : Type 0 where
  pub created_by_id : ℕ
  pub department_id : Option ℕ
  pub lecture_schedules : List ℕ

-- CATALOGUE_ADMINISTRATORS.has(role)
abbrev pub is_catalogue_administrator : UserRole → Bool
is_catalogue_administrator role = is_university_admin role || is_system_owner role

unfoldable pub can_manage_course : CourseForAccess → CourseActor → Bool
can_manage_course course actor =
    if is_catalogue_administrator actor.role
    then true
    else is_department_admin actor.role
      && not (is_none actor.department_id)
      && same_option course.department_id actor.department_id

unfoldable pub can_export_course : CourseForAccess → CourseActor → Bool
can_export_course course actor =
    if is_catalogue_administrator actor.role
    then true
    else if is_department_admin actor.role
    then not (is_none actor.department_id) && same_option course.department_id actor.department_id
    else if not (is_instructor actor.role)
    then false
    else if course.created_by_id == actor.id
    then true
    else any (λ instructor_id. instructor_id == actor.id) course.lecture_schedules

any_is : (x : ℕ) (l : List ℕ) → (any (λ y. y == x) l ≡ true) ↔ (x ∈ l)
any_is x [] = (λ h. cc, λ h. absurd h)
any_is x (y ∷ l) = ground (arith, any_is x l)

-- Whoever may manage a course may export its roster; and the roster goes further only to an
-- instructor who created the course or teaches an active lecture of it.
pub can_export_course_iff :
    (course : CourseForAccess) (actor : CourseActor)
    → (can_export_course course actor ≡ true) ↔ (
        (can_manage_course course actor ≡ true)
        ⊎ ((actor.role ≡ instructor)
            × ((course.created_by_id ≡ actor.id) ⊎ (actor.id ∈ course.lecture_schedules))))
unfolding can_export_course can_manage_course
can_export_course_iff course actor = ground (arith, any_is actor.id course.lecture_schedules)
