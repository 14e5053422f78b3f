-- ===== src/System.antt =====
-- The two services on one database: borrows and work orders share the covers.
pub mod Loans
pub mod Run
mod Tests
