-- ===== src/Work/Service/Refines.antt =====
-- The use cases of contexts/work/services.py refine the steps on the tables.
pub mod Dependencies
pub mod Settlements
pub mod Milestones
pub mod Items
pub mod Moves
pub mod Assignments
pub mod Owners
pub mod Projects
pub mod Cascades
pub mod Closing
