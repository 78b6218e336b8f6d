-- ===== src/Access/Roles.antt =====
-- The enum UserRole of backend/prisma/schema.prisma, with the tests `role === …`. An id is a
-- number, since the code only compares ids.
use wall_e_campus_assistant.Prelude.{Bool, true, false}

pub data UserRole : Type 0 where
  system_owner university_admin department_admin instructor student : UserRole

abbrev pub is_system_owner : UserRole → Bool
is_system_owner system_owner = true
is_system_owner _ = false

abbrev pub is_university_admin : UserRole → Bool
is_university_admin university_admin = true
is_university_admin _ = false

abbrev pub is_department_admin : UserRole → Bool
is_department_admin department_admin = true
is_department_admin _ = false

abbrev pub is_instructor : UserRole → Bool
is_instructor instructor = true
is_instructor _ = false

abbrev pub is_student : UserRole → Bool
is_student student = true
is_student _ = false
