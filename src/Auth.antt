-- ===== src/Auth.antt =====
-- runtime/auth: role inheritance (role.go, RoleHierarchy) and permission patterns (role.go,
-- MatchPermission).
pub mod Role
pub mod Permission
mod Tests
