-- ===== src/Access.antt =====
-- Who may do what: roles, the permission table, courses and sessions.
pub mod Roles
pub mod Permissions
pub mod Courses
pub mod Sessions
