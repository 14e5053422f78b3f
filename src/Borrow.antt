-- ===== src/Borrow.antt =====
-- internal/application/borrow: the inter-office borrow service. Checks on the actor (Actor), the
-- statements on borrows, reservations and covers (Rows), the audit trail and the outbox (Events),
-- the borrow as the API shows it (Detail), and the operations (Lifecycle).
pub mod Actor
pub mod Rows
pub mod Events
pub mod Detail
pub mod Lifecycle
pub mod Capacity
pub mod Create
pub mod Effects
pub mod Consistency
pub mod Reads
pub mod Progress
pub mod Cron
pub mod Run
pub mod Calls
pub mod Custody
pub mod Escalation
pub mod Transitions
pub mod Fixture
mod Tests
