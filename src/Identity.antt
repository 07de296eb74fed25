-- ===== src/Identity.antt =====
-- Identity and organization: backend/app/contexts/identity.
pub mod Vocabulary
