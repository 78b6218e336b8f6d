-- ===== src/Tests/Rights.antt =====
-- Who may do what: the theorems on the guards at concrete actors.
use wall_e_campus_assistant.Prelude.{◌≡◌, ◌≢◌, refl, inl, inr, some, none, [], ◌∷◌, ok}
use wall_e_campus_assistant.Access.Roles.{UserRole, university_admin, instructor}
use wall_e_campus_assistant.Access.Permissions.{
  ScopeActor, ResourceScope, self_read, people_read, has_permission, require_same_university,
  require_same_department,
}
use wall_e_campus_assistant.Access.Permissions.Laws.{
  has_permission_iff, require_same_university_iff, require_same_department_iff, Granted,
}
use wall_e_campus_assistant.Access.Courses.{CourseActor, CourseForAccess}

abbrev staff : UserRole → ScopeActor
staff role = record { id = 20; role = role; organization_id = 1; department_id = some 4 }

abbrev classroom : ResourceScope
classroom = record { organization_id = 1; department_id = some 4; owner_id = none }

has_permission_iff_example : Granted (staff instructor) people_read classroom
unfolding has_permission
has_permission_iff_example = (has_permission_iff (staff instructor) people_read classroom).0 refl

people_read≢self_read : people_read ≢ self_read
people_read≢self_read h = cc

require_same_university_iff_example : require_same_university (staff university_admin) 1 ≡ ok tt
require_same_university_iff_example =
    (require_same_university_iff (staff university_admin) 1).1 (inr (refl, refl))

require_same_department_iff_example : require_same_department (staff university_admin) 9 8 ≡ ok tt
require_same_department_iff_example =
    (require_same_department_iff (staff university_admin) 9 8).1 (inr (inl refl))

abbrev course : CourseForAccess
course = record { created_by_id = 99; department_id = some 4; lecture_schedules = 21 ∷ 20 ∷ [] }

abbrev teacher : CourseActor
teacher = record { id = 20; role = instructor; department_id = some 4 }
