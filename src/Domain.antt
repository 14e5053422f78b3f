-- ===== src/Domain.antt =====
-- internal/domain: roles, and the status machines of covers, work orders and borrows. A status is
-- a Go string; `other` holds any string that is none of the declared constants.
pub mod Role
pub mod Cover
pub mod WorkOrder
pub mod Borrow
pub mod Graph
pub mod Evidence
