-- ===== src/Platform.antt =====
-- The platform: backend/app/platform.
pub mod Authz
pub mod Jobs
pub mod Repository
pub mod Records
pub mod Outbox
mod Tests
