-- ===== src/Access/Sessions.antt =====
-- backend/src/utils/session-access.ts.
use wall_e_campus_assistant.Prelude.{
  ℕ, Bool, true, false, ◌||◌, not, ◌≡◌, ◌↔◌, ◌⊎◌, ◌==◌, if◌then◌else◌, arith,
}
use wall_e_campus_assistant.Access.Roles.{
  UserRole, is_system_owner, is_university_admin, is_instructor, system_owner, university_admin,
  instructor,
}

pub record SessionAuthActor : Type 0 where
  pub id : ℕ
  pub role : UserRole
  pub organization_id : ℕ

pub record SessionAuthSubject : Type 0 where
  pub organization_id : ℕ
  pub created_by_id : ℕ

unfoldable pub is_session_operator : SessionAuthActor → Bool
is_session_operator actor =
    is_instructor actor.role || is_university_admin actor.role || is_system_owner actor.role

unfoldable pub sees_only_own_sessions : SessionAuthActor → Bool
sees_only_own_sessions actor = is_instructor actor.role

unfoldable pub can_see_session : SessionAuthSubject → SessionAuthActor → Bool
unfolding is_session_operator sees_only_own_sessions
can_see_session session actor =
    if not (is_session_operator actor)
    then false
    else if not (session.organization_id == actor.organization_id)
    then false
    else if sees_only_own_sessions actor
    then session.created_by_id == actor.id
    else is_university_admin actor.role || is_system_owner actor.role

-- A session is visible exactly to the administrators of its university, to the system owner acting
-- in it, and to the instructor who opened it, while they belong to that university.
pub can_see_session_iff :
    (session : SessionAuthSubject) (actor : SessionAuthActor)
    → (can_see_session session actor ≡ true) ↔ (
        (session.organization_id ≡ actor.organization_id)
        × ((actor.role ≡ university_admin)
            ⊎ (actor.role ≡ system_owner)
            ⊎ ((actor.role ≡ instructor) × (session.created_by_id ≡ actor.id))))
unfolding can_see_session
can_see_session_iff session actor = ground arith
