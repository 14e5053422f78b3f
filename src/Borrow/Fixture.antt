-- ===== src/Borrow/Fixture.antt =====
-- Two offices with their staff and three covers: the tables that the tests start from.
use scc_backend.Base.{ℕ, ◌+◌, String, true, false, Option, none, some, [], ◌∷◌, cat_all, decimal}
use scc_backend.Domain.Role.{Role}
use scc_backend.Domain.Cover.{CoverStatus}
use scc_backend.Store.{Db, User, Office, Cover, BorrowRow, BorrowCover}
use scc_backend.Domain.Borrow.{BorrowStatus}
use scc_backend.Effect.{Env, Session}
use scc_backend.Borrow.Actor.{Actor}
use scc_backend.Borrow.Create.{CreateParams}

abbrev user : String → Role → Option String → User
user id role office = record { id = id; role = role; office_id = office; is_active = true }

abbrev office : String → String → Office
office id name = record { id = id; name = name; work_hub_id = "hub" }

abbrev cover : String → Cover
cover id = record {
  id = id;
  asset_code = id;
  qr_code = id;
  nfc_id = none;
  status = CoverStatus.in_stock;
  owner_office_id = "north";
  current_office_id = "north";
  updated_at = 5;
}

abbrev pub start : Db
start = record {
  users =
      user "lender" Role.exec (some "north")
      ∷ user "asker" Role.tech (some "south")
      ∷ user "support" Role.admin none
      ∷ [];
  offices = office "north" "North" ∷ office "south" "South" ∷ [];
  covers = cover "c1" ∷ cover "c2" ∷ cover "c3" ∷ [];
  installations = [];
  work_orders = [];
  borrows = [];
  borrow_covers = [];
  borrow_audit_events = [];
  outbox = [];
  notifications = [];
  discrepancies = [];
  discrepancy_audit_events = [];
}

-- A database that answers every statement.
abbrev pub calm : Env
calm = record {
  clock = λ n. 1000 + n;
  uuid = λ n. cat_all ("uuid-" ∷ decimal n ∷ []);
  fault = λ n. false;
  is_postgres = true;
  before = λ a b. false;
  nfc = λ s. s;
  is_uuid = λ s. true;
  has_repo = true;
  has_db = true;
  has_notif_repo = true;
}

abbrev pub at : Db → Session
at db = record { db = db; statements = 0; minted = 50 }

abbrev pub lender : Actor
lender = record { id = "lender"; role = Role.exec; office_id = some "north" }

abbrev pub asker : Actor
asker = record { id = "asker"; role = Role.tech; office_id = some "south" }

abbrev pub request : CreateParams
request = record {
  lender_office_id = "north";
  requested_qty = 2;
  return_date = 5000;
  note = none;
  actor = asker;
}

-- The tables once the request has been created and approved.
abbrev pub b1 : BorrowStatus → BorrowRow
b1 status = record {
  id = "b1";
  borrower_office_id = "south";
  lender_office_id = "north";
  status = status;
  requested_qty = 2;
  note = none;
  return_date = 5000;
  created_by_id = "asker";
  approved_by_id = none;
  activated_by_id = none;
  returned_by_id = none;
  created_at = 10;
  updated_at = 10;
  activated_at = none;
  returned_at = none;
}

abbrev link : Option ℕ → String → String → BorrowCover
link at_time id cover_id = record {
  id = id;
  borrow_id = "b1";
  cover_id = cover_id;
  released_at = at_time;
  created_at = 10;
}

abbrev pub held : BorrowStatus → Db
held status = record start {
  borrows = b1 status ∷ [];
  borrow_covers = link none "l1" "c1" ∷ link none "l2" "c2" ∷ [];
}

abbrev away : Cover → Cover
away c = record c { current_office_id = "south" }

abbrev pub lent : Db
lent = record start {
  borrows = b1 BorrowStatus.on_loan ∷ [];
  borrow_covers = link (some 20) "l1" "c1" ∷ link (some 20) "l2" "c2" ∷ [];
  covers = away (cover "c1") ∷ away (cover "c2") ∷ cover "c3" ∷ [];
}

abbrev pub stuck : Db
stuck = record lent {
  installations =
      record {
        id = "i1";
        work_order_id = "w1";
        cover_id = "c2";
        gps_lat = none;
        gps_lng = none;
        photo_install_url = none;
        photo_remove_url = none;
        installed_at = some 15;
        removed_at = none;
        remark = none;
        created_at = 12;
      }
      ∷ [];
}
