-- ===== src/Authz.antt =====
-- queryapi/internal/authz: the closed vocabulary of permissions and the guard before the apiserver's
-- own authorizer; queryapi/internal/miloauth: the project of a caller.
pub mod Permissions
pub mod Guard
pub mod AllowPaths
pub mod Project
