-- ===== src/Store.antt =====
-- The tables that the services read and write (internal/infrastructure/persistence/models.go and
-- db/migrations), with the columns that the modelled code uses. A table is a list of rows in no
-- order that a query relies on. Instants are nanoseconds since Go's zero time, so that
-- `time.Time.IsZero` is 0.
use scc_backend.Base.{String, ℕ, Bool, Option, List}
use scc_backend.Domain.Role.{Role}
use scc_backend.Domain.Cover.{CoverStatus}
use scc_backend.Domain.WorkOrder.{WorkOrderStatus, WorkOrderType, UsageType}
use scc_backend.Domain.Borrow.{BorrowStatus}

pub record User : Type 0 where
  pub id : String
  pub role : Role
  pub office_id : Option String
  pub is_active : Bool

pub record Office : Type 0 where
  pub id : String
  pub name : String
  pub work_hub_id : String

pub record Cover : Type 0 where
  pub id : String
  pub asset_code : String
  pub qr_code : String
  pub nfc_id : Option String
  pub status : CoverStatus
  pub owner_office_id : String
  pub current_office_id : String
  pub updated_at : ℕ

-- The bits of a float64: a coordinate is only copied.
abbrev pub Coordinate : Type 0
Coordinate = ℕ

-- One cover of one work order: a draft until it is installed.
pub record Installation : Type 0 where
  pub id : String
  pub work_order_id : String
  pub cover_id : String
  pub gps_lat : Option Coordinate
  pub gps_lng : Option Coordinate
  pub photo_install_url : Option String
  pub photo_remove_url : Option String
  pub installed_at : Option ℕ
  pub removed_at : Option ℕ
  pub remark : Option String
  pub created_at : ℕ

pub record WorkOrder : Type 0 where
  pub id : String
  pub office_id : String
  pub kind : WorkOrderType
  pub usage_type : UsageType
  pub status : WorkOrderStatus
  pub customer_name : String
  pub request_number : Option String
  pub customer_phone : Option String
  pub note : Option String
  pub gps_lat : Option Coordinate
  pub gps_lng : Option Coordinate
  pub planned_qty : Option ℕ
  pub install_date : Option ℕ
  pub removal_date : Option ℕ
  pub created_by_id : String
  pub assigned_to_id : Option String
  pub started_at : Option ℕ
  pub completed_at : Option ℕ
  pub created_at : ℕ
  pub updated_at : ℕ

pub record BorrowRow : Type 0 where
  pub id : String
  pub borrower_office_id : String
  pub lender_office_id : String
  pub status : BorrowStatus
  pub requested_qty : ℕ
  pub note : Option String
  pub return_date : ℕ
  pub created_by_id : String
  pub approved_by_id : Option String
  pub activated_by_id : Option String
  pub returned_by_id : Option String
  pub created_at : ℕ
  pub updated_at : ℕ
  pub activated_at : Option ℕ
  pub returned_at : Option ℕ

-- One exact cover reserved for one borrow; `released_at` is null while the reservation is active.
pub record BorrowCover : Type 0 where
  pub id : String
  pub borrow_id : String
  pub cover_id : String
  pub released_at : Option ℕ
  pub created_at : ℕ

pub record BorrowAudit : Type 0 where
  pub id : String
  pub borrow_id : String
  pub action : String
  pub from_status : Option BorrowStatus
  pub to_status : BorrowStatus
  pub actor_id : Option String
  pub actor_role : String
  pub reason : Option String
  pub created_at : ℕ

pub record OutboxRow : Type 0 where
  pub id : String
  pub borrow_id : String
  pub recipient_user_id : String
  pub notification_type : String
  pub message : String
  pub dedup_key : String
  pub processed_at : Option ℕ
  pub created_at : ℕ

pub record Notification : Type 0 where
  pub id : String
  pub user_id : String
  pub kind : String
  pub message : String
  pub work_order_id : Option String
  pub borrow_id : Option String
  pub discrepancy_id : Option String
  pub dedup_key : Option String
  pub created_at : ℕ

pub record Discrepancy : Type 0 where
  pub id : String
  pub office_id : String
  pub kind : String
  pub status : String
  pub reason : String
  pub expected_qty : Option ℕ
  pub observed_qty : Option ℕ
  pub borrow_id : Option String
  pub dedup_key : Option String
  pub created_at : ℕ
  pub updated_at : ℕ

pub record DiscrepancyAudit : Type 0 where
  pub id : String
  pub discrepancy_id : String
  pub action : String
  pub actor_id : Option String
  pub actor_role : String
  pub note : String
  pub created_at : ℕ

pub record Db : Type 0 where
  pub users : List User
  pub offices : List Office
  pub covers : List Cover
  pub installations : List Installation
  pub work_orders : List WorkOrder
  pub borrows : List BorrowRow
  pub borrow_covers : List BorrowCover
  pub borrow_audit_events : List BorrowAudit
  pub outbox : List OutboxRow
  pub notifications : List Notification
  pub discrepancies : List Discrepancy
  pub discrepancy_audit_events : List DiscrepancyAudit
