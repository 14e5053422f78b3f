-- ===== src/WorkOrder.antt =====
-- internal/application/workorder: work orders, the covers they install and remove. The statements
-- (Rows), who may act (Actor), the capacity of an office (Planning), what the office does with a work
-- order (Desk) and what the technician does in the field (Field), and the removal-due check (Cron).
pub mod Rows
pub mod Planning
pub mod Desk
pub mod Field
pub mod Submit
pub mod Removal
pub mod Photos
pub mod Cron
pub mod Stock
pub mod Run
pub mod Outcomes
pub mod Evidence
pub mod Fixture
mod Tests
pub mod Effects
