-- ===== src/Access/Permissions.antt =====
-- backend/src/utils/authorization.ts, with the errors of backend/src/utils/AppError.ts that it
-- throws. A departmentId that is null and one that is undefined are both `none`.
pub mod Laws
use wall_e_campus_assistant.Prelude.{
  ℕ, Bool, true, false, not, ◌&&◌, ◌||◌, Option, none, some, Result, ok, err, ◌==◌, if◌then◌else◌,
  throw_if, same_option, is_none,
}
use wall_e_campus_assistant.Access.Roles.{
  UserRole, is_system_owner, is_university_admin, is_department_admin, is_instructor,
}

pub record ScopeActor : Type 0 where
  pub id : ℕ
  pub role : UserRole
  pub organization_id : ℕ
  pub department_id : Option ℕ

pub record ResourceScope : Type 0 where
  pub organization_id : ℕ
  pub department_id : Option ℕ
  pub owner_id : Option ℕ

pub data Permission : Type 0 where
  university_manage department_manage people_read people_create student_approve course_manage
        schedule_manage teaching_operate assignment_manage grade_manage self_read :
      Permission

abbrev pub is_self_read : Permission → Bool
is_self_read self_read = true
is_self_read _ = false

abbrev pub is_university_manage : Permission → Bool
is_university_manage university_manage = true
is_university_manage _ = false

-- The permissions in the instructor's disjunction.
abbrev pub is_teaching_permission : Permission → Bool
is_teaching_permission people_read = true
is_teaching_permission student_approve = true
is_teaching_permission teaching_operate = true
is_teaching_permission assignment_manage = true
is_teaching_permission grade_manage = true
is_teaching_permission _ = false

unfoldable pub same_university : ScopeActor → ResourceScope → Bool
same_university actor scope = actor.organization_id == scope.organization_id

unfoldable pub same_department : ScopeActor → ResourceScope → Bool
same_department actor scope =
    not (is_none scope.department_id)
    && not (is_none actor.department_id)
    && same_option actor.department_id scope.department_id

unfoldable pub has_permission : ScopeActor → Permission → ResourceScope → Bool
unfolding same_university same_department
has_permission actor permission scope =
    if is_system_owner actor.role
    then true
    else if not (same_university actor scope)
    then false
    else if is_self_read permission
    then same_option scope.owner_id (some actor.id)
    else if is_university_admin actor.role
    then true
    else if is_department_admin actor.role
    then (if not (same_department actor scope)
        then false
        else not (is_university_manage permission))
    else if is_instructor actor.role
    then (if not (same_department actor scope) then false else is_teaching_permission permission)
    else false

-- forbidden(): status 403.
pub data Forbidden : Type 0 where
  forbidden : Forbidden

unfoldable pub require_permission :
    ScopeActor → Permission → ResourceScope → Result Forbidden (Unit {0})
unfolding has_permission
require_permission actor permission scope =
    throw_if (not (has_permission actor permission scope)) forbidden

unfoldable pub require_same_university : ScopeActor → ℕ → Result Forbidden (Unit {0})
unfolding require_permission
require_same_university actor organization_id =
    require_permission actor people_read
      (record { organization_id = organization_id; department_id = none; owner_id = none })

unfoldable pub require_same_department : ScopeActor → ℕ → ℕ → Result Forbidden (Unit {0})
unfolding same_university
require_same_department actor organization_id department_id =
    throw_if
      (not (is_system_owner actor.role)
        && not (is_university_admin actor.role)
        && (not (
              same_university actor (record {
                organization_id = organization_id;
                department_id = none;
                owner_id = none;
              }))
            || not (same_option actor.department_id (some department_id))))
      forbidden
