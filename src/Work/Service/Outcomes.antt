-- ===== src/Work/Service/Outcomes.antt =====
-- What the use cases with consequences leave behind.
pub mod Cancelled
pub mod Narrowed
pub mod Settled
pub mod Returns
pub mod Completes
pub mod Owned
pub mod Finished
