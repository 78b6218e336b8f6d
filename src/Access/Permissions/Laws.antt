-- ===== src/Access/Permissions/Laws.antt =====
-- What the permission table of backend/src/utils/authorization.ts grants.
use wall_e_campus_assistant.Prelude.{
  ℕ, ◌≡◌, ◌≢◌, ◌⊎◌, ◌↔◌, refl, true, false, Option, some, none, ok, arith, inl, inr, Bool-cases,
  not, ◌&&◌, is_none, same_option,
}
use wall_e_campus_assistant.Access.Roles.{
  UserRole, system_owner, university_admin, department_admin, instructor, student,
}
use wall_e_campus_assistant.Access.Permissions.{
  ScopeActor, ResourceScope, Permission, university_manage, people_read, student_approve,
  teaching_operate, assignment_manage, grade_manage, self_read, has_permission,
  require_same_university, require_same_department, is_teaching_permission, is_self_read,
}

-- The departments of the actor and of the resource are both set, and are the same.
abbrev pub SharesDepartment : ScopeActor → ResourceScope → Type 0
SharesDepartment actor scope =
    (d : ℕ) × (actor.department_id ≡ some d) × (scope.department_id ≡ some d)

-- The five permissions of an instructor.
abbrev pub IsTeaching : Permission → Type 0
IsTeaching p =
    (p ≡ people_read)
    ⊎ (p ≡ student_approve)
    ⊎ (p ≡ teaching_operate)
    ⊎ (p ≡ assignment_manage)
    ⊎ (p ≡ grade_manage)

-- The reasons for which an actor is granted a permission.
pub data Granted (a : ScopeActor) (p : Permission) (s : ResourceScope) : Type 0 where
  as_owner : a.role ≡ system_owner → Granted a p s
  own_record :
      a.organization_id ≡ s.organization_id → p ≡ self_read → s.owner_id ≡ some a.id → Granted a p s
  as_university :
      a.role ≡ university_admin
      → a.organization_id ≡ s.organization_id
      → p ≢ self_read
      → Granted a p s
  as_department :
      a.role ≡ department_admin
      → a.organization_id ≡ s.organization_id
      → SharesDepartment a s
      → p ≢ self_read
      → p ≢ university_manage
      → Granted a p s
  as_teacher :
      a.role ≡ instructor
      → a.organization_id ≡ s.organization_id
      → SharesDepartment a s
      → IsTeaching p
      → Granted a p s

IsTeaching-iff : (p : Permission) → (is_teaching_permission p ≡ true) ↔ IsTeaching p
IsTeaching-iff p = ground arith

shares_department :
    (x y : Option ℕ)
    → (not (is_none y) && not (is_none x) && same_option x y) ≡ true
    → (d : ℕ) × (x ≡ some d) × (y ≡ some d)
shares_department (some x) (some y) h = (x, refl, ground arith)
shares_department (some x) none h = cc
shares_department none (some y) h = cc
shares_department none none h = cc

same_option_sound : (x y : Option ℕ) → same_option x y ≡ true → x ≡ y
same_option_sound (some x) (some y) h = ground arith
same_option_sound (some x) none h = cc
same_option_sound none (some y) h = cc
same_option_sound none none h = refl

module _ (a : ScopeActor) (p : Permission) (s : ResourceScope) where
  same_organization :
      a.role ≢ system_owner → has_permission a p s ≡ true → a.organization_id ≡ s.organization_id
  unfolding has_permission
  same_organization n h = ground arith

  own_owner :
      a.role ≢ system_owner
      → is_self_read p ≡ true
      → has_permission a p s ≡ true
      → s.owner_id ≡ some a.id
  unfolding has_permission
  own_owner n e h = ground (arith, same_option_sound s.owner_id (some a.id))

  in_department :
      a.role ≢ system_owner
      → a.role ≢ university_admin
      → is_self_read p ≡ false
      → has_permission a p s ≡ true
      → SharesDepartment a s
  unfolding has_permission
  in_department n m e h = shares_department a.department_id s.department_id (ground arith)

  by_role :
      (r : UserRole)
      → a.role ≡ r
      → is_self_read p ≡ false
      → has_permission a p s ≡ true
      → Granted a p s
  unfolding has_permission
  by_role system_owner e q h = as_owner e
  by_role university_admin e q h =
      as_university e (same_organization (ground arith) h) (ground arith)
  by_role department_admin e q h =
      as_department e (same_organization (ground arith) h)
        (in_department (ground arith) (ground arith) q h) (ground arith) (ground arith)
  by_role instructor e q h =
      as_teacher e (same_organization (ground arith) h)
        (in_department (ground arith) (ground arith) q h) ((IsTeaching-iff p).0 (ground arith))
  by_role student e q h = absurd (ground arith)

  own_by_role :
      (r : UserRole)
      → a.role ≡ r
      → is_self_read p ≡ true
      → has_permission a p s ≡ true
      → Granted a p s
  own_by_role system_owner e q h = as_owner e
  own_by_role _ e q h =
      own_record (same_organization (ground arith) h) (ground arith) (own_owner (ground arith) q h)

has_permission_complete :
    (a : ScopeActor) (s : ResourceScope) (p : Permission)
    → Granted a p s
    → has_permission a p s ≡ true
unfolding has_permission
has_permission_complete a s p (as_owner r) = ground arith
has_permission_complete a s p (own_record o e w) = ground arith
has_permission_complete a s p (as_university r o n) = ground arith
has_permission_complete a s p (as_department r o (d, x, y) n m) = ground arith
has_permission_complete a s p (as_teacher r o (d, x, y) t) =
    let teaching = (IsTeaching-iff p).1 t in ground arith

-- A permission is granted exactly for one of these reasons: the actor is the system owner; the
-- actor's own record is read, in the actor's university; the actor administers the university and
-- the permission is not that one; the actor administers the department and the permission is
-- neither that one nor the managing of universities; or the actor teaches in the department and the
-- permission is one of the five: to read people, to approve students, to operate teaching, and to
-- manage assignments and grades.
pub has_permission_iff :
    (a : ScopeActor) (p : Permission) (s : ResourceScope)
    → (has_permission a p s ≡ true) ↔ Granted a p s
has_permission_iff a p s = (
  λ h. elim (Bool-cases (is_self_read p)) [
    | inl q ↦ own_by_role a p s a.role refl q h
    | inr q ↦ by_role a p s a.role refl q h
  ],
  has_permission_complete a s p,
)

-- What an instructor is granted in a department, its administrator is granted too; what the
-- administrator is granted, the university's administrator is granted; and the system owner is
-- granted everything. A record of one's own is left out.
pub has_permission_hierarchy :
    (a b : ScopeActor) (p : Permission) (s : ResourceScope)
    → a.organization_id ≡ b.organization_id
    → a.department_id ≡ b.department_id
    → p ≢ self_read
    → ((a.role ≡ instructor) × (b.role ≡ department_admin))
      ⊎ ((a.role ≡ department_admin) × (b.role ≡ university_admin))
      ⊎ (b.role ≡ system_owner)
    → has_permission a p s ≡ true
    → has_permission b p s ≡ true
unfolding has_permission
has_permission_hierarchy a b p s o d n r h = ground arith

-- The check for a resource of the actor's own university that has no department: it lets the system
-- owner and the university's administrator through, and refuses its department administrators and
-- instructors, though they are of the same university.
pub require_same_university_iff :
    (a : ScopeActor) (organization_id : ℕ)
    → (require_same_university a organization_id ≡ ok tt) ↔ (
        (a.role ≡ system_owner)
        ⊎ ((a.role ≡ university_admin) × (a.organization_id ≡ organization_id)))
unfolding require_same_university
require_same_university_iff a o = ground arith

-- The check for a resource of a department: the system owner and any university administrator pass
-- it, whatever their university, and any other actor exactly if both their university and their
-- department are the resource's.
pub require_same_department_iff :
    (a : ScopeActor) (organization_id department_id : ℕ)
    → (require_same_department a organization_id department_id ≡ ok tt) ↔ (
        (a.role ≡ system_owner)
        ⊎ (a.role ≡ university_admin)
        ⊎ ((a.organization_id ≡ organization_id) × (a.department_id ≡ some department_id)))
unfolding require_same_department
require_same_department_iff a o d = ground arith
