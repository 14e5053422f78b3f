-- ===== src/Discrepancy.antt =====
-- internal/application/discrepancy: audited reports of stock that does not add up.
pub mod Shortfall
