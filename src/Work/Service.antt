-- ===== src/Work/Service.antt =====
-- The use cases of contexts/work/services.py. Each returns its row and the state that its transaction
-- commits, or raises, and then nothing is committed. A service object serves one call, so that the
-- caller's reach is read from the state before it.
pub mod Commands
pub mod Dependencies
pub mod Assignments
pub mod Milestones
pub mod Items
pub mod Projects
pub mod Steps
pub mod Effects
pub mod Keyed
pub mod Refines
pub mod History
pub mod Completion
pub mod Seating
pub mod Graph
pub mod Written
pub mod Trail
pub mod Outcomes
mod Samples
mod Tests
