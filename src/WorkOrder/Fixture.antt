-- ===== src/WorkOrder/Fixture.antt =====
-- One office with a technician, a cover and a work order: the tables that the tests start from.
use scc_backend.Base.{ℕ, true, Option, none, some, List, [], ◌∷◌}
use scc_backend.Domain.Role.{Role}
use scc_backend.Domain.Cover.{CoverStatus}
use scc_backend.Domain.WorkOrder.{WorkOrderStatus, WorkOrderType, UsageType}
use scc_backend.Store.{Db, User, Cover, WorkOrder, Installation}
use scc_backend.Borrow.Fixture.{start as tables}
use scc_backend.WorkOrder.Field.{EvidenceActor}

abbrev pub tech : User
tech = record { id = "t1"; role = Role.tech; office_id = some "north"; is_active = true }

abbrev pub worker : EvidenceActor
worker = record { user_id = "t1"; role = Role.tech; office_id = some "north" }

abbrev pub cover : CoverStatus → Cover
cover status = record {
  id = "c1";
  asset_code = "A1";
  qr_code = "Q1";
  nfc_id = none;
  status = status;
  owner_office_id = "north";
  current_office_id = "north";
  updated_at = 5;
}

abbrev pub job : WorkOrderStatus → WorkOrder
job status = record {
  id = "w1";
  office_id = "north";
  kind = WorkOrderType.install;
  usage_type = UsageType.internal;
  status = status;
  customer_name = "Customer";
  request_number = none;
  customer_phone = none;
  note = none;
  gps_lat = none;
  gps_lng = none;
  planned_qty = some 1;
  install_date = some 100;
  removal_date = some 200;
  created_by_id = "e1";
  assigned_to_id = some "t1";
  started_at = none;
  completed_at = none;
  created_at = 1;
  updated_at = 1;
}

abbrev pub scan : Option ℕ → Option ℕ → Installation
scan installed removed = record {
  id = "i1";
  work_order_id = "w1";
  cover_id = "c1";
  gps_lat = none;
  gps_lng = none;
  photo_install_url = some "evidence/v1/install/w1/c1/token.jpg";
  photo_remove_url = some "evidence/v1/remove/w1/c1/token.png";
  installed_at = installed;
  removed_at = removed;
  remark = none;
  created_at = 50;
}

abbrev pub site : WorkOrderStatus → CoverStatus → List Installation → Db
site status in_status rows = record tables {
  users = tech ∷ [];
  covers = cover in_status ∷ [];
  work_orders = job status ∷ [];
  installations = rows;
}

abbrev pub scanned : Db
scanned = site WorkOrderStatus.scheduled CoverStatus.in_stock (scan none none ∷ [])
