-- ===== src/WorkOrder/Outcomes.antt =====
-- What the committed calls of the work order service have done.
pub mod Completion
pub mod Creation
pub mod Cancellation
pub mod Submission
pub mod Updates
pub mod Dues
pub mod Told
