-- ===== src/WorkOrder/Field.antt =====
-- workorder/service.go: who may work on a work order in the field, and the scans before its covers
-- are installed: Start, ScanInstall and UnscanInstall.
use scc_backend.Base.{
  ℕ, String, Bool, false, not, ◌&&◌, ◌||◌, Option, none, some, str_eq, is_some, ltb, count_where,
}
use scc_backend.Domain.Role.{Role, role_eq}
use scc_backend.Domain.Cover.{CoverStatus}
use scc_backend.Domain.Cover
use scc_backend.Domain.WorkOrder.{WorkOrderStatus, status_eq}
use scc_backend.Store.{WorkOrder, Installation, Cover, Coordinate}
use scc_backend.Effect.{
  Error, Action, ◌>>=◌, ◌>>◌, pure, refuse_if, query, new_uuid, time_now, transaction, ask,
}
use scc_backend.Borrow.Rows.{lock_planning_office}
use scc_backend.Borrow.Capacity.{active_reservations}
use scc_backend.WorkOrder.Rows.{
  find_by_id_for_update, update_started, find_cover_by_code_for_update,
  find_installation_for_update, add_installation, remove_draft_installation,
}
use scc_backend.WorkOrder.Planning.{normalize_identifier}

pub record EvidenceActor : Type 0 where
  pub user_id : String
  pub role : Role
  pub office_id : Option String

-- Both are there, neither is empty where it is given, and they are equal.
abbrev pub is_given_as : String → Option String → Bool
is_given_as value none = false
is_given_as value (some given) = not (str_eq given "") && str_eq value given

abbrev pub is_assigned_to : String → Option String → Bool
is_assigned_to user_id none = false
is_assigned_to user_id (some assigned) = str_eq assigned user_id

-- `evidenceMutationAllowed`
unfoldable pub evidence_mutation_allowed : EvidenceActor → WorkOrder → Bool
evidence_mutation_allowed actor w =
    role_eq actor.role Role.admin
    || (role_eq actor.role Role.tech
        && not (str_eq actor.user_id "")
        && is_given_as w.office_id actor.office_id
        && is_assigned_to actor.user_id w.assigned_to_id)

-- `evidenceReadAllowed`
unfoldable pub evidence_read_allowed : EvidenceActor → WorkOrder → Bool
evidence_read_allowed actor w =
    role_eq actor.role Role.admin
    || (is_given_as w.office_id actor.office_id
        && (role_eq actor.role Role.exec
            || (role_eq actor.role Role.tech
                && not (str_eq actor.user_id "")
                && is_assigned_to actor.user_id w.assigned_to_id)))

-- The work order, once `authorizeFieldMutationLocked` has let the actor pass.
unfoldable pub authorized_work_order : EvidenceActor → String → Action WorkOrder
authorized_work_order actor id = do
  found ← find_by_id_for_update id
  refuse_if (not (evidence_mutation_allowed actor found)) Error.forbidden
  pure found

-- The guard on the database, and one transaction.
unfoldable pub in_transaction : {A : Type 0} → Action A → Action A
in_transaction m = do
  has_db ← ask (λ c. c.has_db)
  refuse_if (not has_db) Error.not_configured
  transaction m

-- The value given, or else the old one.
abbrev pub given_or : Option Coordinate → Option Coordinate → Option Coordinate
given_or none old = old
given_or (some new) old = some new

abbrev pub started : WorkOrder → Option Coordinate → Option Coordinate → ℕ → WorkOrder
started w lat lng now = record w {
  started_at = some now;
  gps_lat = given_or lat w.gps_lat;
  gps_lng = given_or lng w.gps_lng;
  updated_at = now;
}

-- The body of the transaction of `start`.
unfoldable pub start_tx :
    EvidenceActor → String → Option Coordinate → Option Coordinate → Action (Unit {0})
start_tx actor id lat lng = do
  w ← authorized_work_order actor id
  refuse_if (not (status_eq w.status WorkOrderStatus.scheduled)) Error.state_invalid
  now ← time_now
  update_started (started w lat lng now)

-- `start`, `StartAs`
unfoldable pub start :
    EvidenceActor → String → Option Coordinate → Option Coordinate → Action (Unit {0})
start actor id lat lng = do
  nfc ← ask (λ c. c.nfc)
  in_transaction (start_tx actor (normalize_identifier nfc id) lat lng)

-- cover_id = ? AND work_order_id <> ? AND removed_at IS NULL
abbrev pub is_open_elsewhere : String → String → Installation → Bool
is_open_elsewhere work_order_id cover_id i =
    str_eq i.cover_id cover_id
    && not (str_eq i.work_order_id work_order_id)
    && not (is_some i.removed_at)

abbrev pub draft : String → String → String → ℕ → Installation
draft id work_order_id cover_id now = record {
  id = id;
  work_order_id = work_order_id;
  cover_id = cover_id;
  gps_lat = none;
  gps_lng = none;
  photo_install_url = none;
  photo_remove_url = none;
  installed_at = none;
  removed_at = none;
  remark = none;
  created_at = now;
}

-- The checks and the insertion of a first scan.
unfoldable pub add_draft : String → String → Action (Unit {0})
add_draft work_order_id cover_id = do
  other_drafts ←
      query (λ db. count_where (is_open_elsewhere work_order_id cover_id) db.installations)
  refuse_if (ltb 0 other_drafts) Error.conflict
  reserved ← query (λ db. active_reservations cover_id db.borrow_covers)
  refuse_if (ltb 0 reserved) Error.conflict
  id ← new_uuid
  now ← time_now
  add_installation (draft id work_order_id cover_id now)

-- A cover that the work order has already is no error.
unfoldable pub add_unless : Option Installation → String → String → Action (Unit {0})
add_unless (some existing) work_order_id cover_id = pure tt
add_unless none work_order_id cover_id = add_draft work_order_id cover_id

-- The body of the transaction of `scanInstall`.
unfoldable pub scan_install_tx : EvidenceActor → String → String → Action Cover
scan_install_tx actor id cover_code = do
  w ← authorized_work_order actor id
  refuse_if (not (status_eq w.status WorkOrderStatus.scheduled)) Error.state_invalid
  lock_planning_office w.office_id
  scanned ← find_cover_by_code_for_update cover_code
  refuse_if (not (Cover.status_eq scanned.status CoverStatus.in_stock)) Error.conflict
  refuse_if (not (str_eq scanned.current_office_id w.office_id)) Error.conflict
  existing ← find_installation_for_update id scanned.id
  add_unless existing id scanned.id
  pure scanned

-- `scanInstall`, `ScanInstallAs`
unfoldable pub scan_install : EvidenceActor → String → String → Action Cover
scan_install actor id cover_code = in_transaction (scan_install_tx actor id cover_code)

-- The body of the transaction of `unscanInstall`.
unfoldable pub unscan_install_tx : EvidenceActor → String → String → Action (Unit {0})
unscan_install_tx actor id cover_id = do
  w ← authorized_work_order actor id
  refuse_if (not (status_eq w.status WorkOrderStatus.scheduled)) Error.state_invalid
  remove_draft_installation id cover_id

-- `unscanInstall`, `UnscanInstallAs`
unfoldable pub unscan_install : EvidenceActor → String → String → Action (Unit {0})
unscan_install actor id cover_id = in_transaction (unscan_install_tx actor id cover_id)
