-- ===== src/Rbac.antt =====
-- pkg/rbac
pub mod Permission
pub mod Model
pub mod Context
pub mod Roles
pub mod Bindings
pub mod Decorator
pub mod Genesis
