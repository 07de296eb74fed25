-- ===== src/Work.antt =====
-- The Work Core: backend/app/contexts/work.
pub mod Vocabulary
pub mod Visibility
pub mod Lifecycle
pub mod Hierarchy
pub mod Assignment
pub mod Dependency
pub mod Reporting
pub mod Project
pub mod Rows
pub mod Store
pub mod Queries
pub mod Relations
pub mod Service
mod Tests
