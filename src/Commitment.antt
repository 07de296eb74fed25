-- ===== src/Commitment.antt =====
-- Commitments: backend/app/contexts/commitment.
pub mod Vocabulary
pub mod Domain
pub mod Repository
pub mod Store
pub mod Service
mod Tests
