-- ===== src/Platform/Authz.antt =====
-- Authorization: backend/app/platform/authz.
pub mod Model
pub mod Matrix
pub mod Policy
pub mod Agent
