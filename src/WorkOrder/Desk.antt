-- ===== src/WorkOrder/Desk.antt =====
-- workorder/service.go: what the office does with a work order: Create, UpdateScheduled, Assign and
-- Cancel.
use scc_backend.Base.{
  ℕ, String, Bool, true, false, not, ◌&&◌, ◌||◌, Option, none, some, str_eq, is_some, if◌then◌else◌,
  delete_where, trim_space, get_option,
}
use scc_backend.Domain.WorkOrder.{
  WorkOrderStatus, WorkOrderType, UsageType, status_eq, is_valid_usage, is_valid_transition,
  can_assign,
}
use scc_backend.Store.{WorkOrder, Coordinate}
use scc_backend.Effect.{
  Error, Action, ◌>>=◌, ◌>>◌, pure, refuse_if, execute, new_uuid, time_now, transaction, ask,
}
use scc_backend.Borrow.Rows.{lock_planning_office}
use scc_backend.WorkOrder.Rows.{
  find_by_id_for_update, insert_work_order, update_work_order, update_scheduled_row, is_draft_of,
}
use scc_backend.WorkOrder.Planning.{
  normalize_identifier, normalize_optional_identifier, is_plan, ensure_planned_qty_available,
  validate_assignment_target, create_assignment_notification,
}

pub record CreateParams : Type 0 where
  pub office_id : String
  pub customer_name : String
  pub request_number : Option String
  pub customer_phone : Option String
  pub note : Option String
  pub gps_lat : Option Coordinate
  pub gps_lng : Option Coordinate
  pub planned_qty : Option ℕ
  pub install_date : Option ℕ
  pub removal_date : Option ℕ
  pub created_by_id : String
  pub assigned_to_id : Option String
  pub usage_type : UsageType

-- The input as Create normalizes it.
abbrev pub normalized : (String → String) → CreateParams → CreateParams
normalized nfc p = record p {
  office_id = normalize_identifier nfc p.office_id;
  customer_name = normalize_identifier nfc p.customer_name;
  created_by_id = normalize_identifier nfc p.created_by_id;
  customer_phone = normalize_optional_identifier nfc p.customer_phone;
  request_number = normalize_optional_identifier nfc p.request_number;
  assigned_to_id = normalize_optional_identifier nfc p.assigned_to_id;
}

abbrev pub is_blank : Option String → Bool
is_blank none = false
is_blank (some s) = str_eq s ""

abbrev pub default_usage : UsageType → UsageType
default_usage (UsageType.other u) =
    if str_eq u "" then UsageType.customer_cover else UsageType.other u
default_usage u = u

abbrev pub new_work_order : String → CreateParams → ℕ → WorkOrder
new_work_order id p now = record {
  id = id;
  office_id = p.office_id;
  kind = WorkOrderType.install;
  usage_type = p.usage_type;
  status = WorkOrderStatus.scheduled;
  customer_name = p.customer_name;
  request_number = p.request_number;
  customer_phone = p.customer_phone;
  note = p.note;
  gps_lat = p.gps_lat;
  gps_lng = p.gps_lng;
  planned_qty = p.planned_qty;
  install_date = p.install_date;
  removal_date = p.removal_date;
  created_by_id = p.created_by_id;
  assigned_to_id = p.assigned_to_id;
  started_at = none;
  completed_at = none;
  created_at = now;
  updated_at = now;
}

-- `if assignedToId is given { validateAssignmentTargetTx }`
unfoldable pub validate_given_target : String → Option String → Action (Unit {0})
validate_given_target office none = pure tt
validate_given_target office (some user_id) = validate_assignment_target office user_id

abbrev pub same_optional_string : Option String → Option String → Bool
same_optional_string none none = true
same_optional_string (some a) (some b) = str_eq a b
same_optional_string _ _ = false

-- The body of the transaction of `Create`, of a work order with its planned quantity.
unfoldable pub create_work_order_tx : WorkOrder → ℕ → Action (Unit {0})
create_work_order_tx w planned_qty = do
  lock_planning_office w.office_id
  ensure_planned_qty_available w.office_id planned_qty none
  validate_given_target w.office_id w.assigned_to_id
  insert_work_order w
  if same_optional_string w.assigned_to_id (some w.created_by_id)
      then pure tt
      else create_assignment_notification w.id w.assigned_to_id

-- `Create`
unfoldable pub create_work_order : CreateParams → Action WorkOrder
create_work_order given = do
  nfc ← ask (λ c. c.nfc)
  let p = normalized nfc given
  refuse_if (is_blank p.assigned_to_id) Error.validation
  refuse_if (not (is_plan p.planned_qty p.install_date p.removal_date)) Error.validation
  refuse_if (not (is_valid_usage (default_usage p.usage_type))) Error.validation
  refuse_if (str_eq p.office_id "" || str_eq p.customer_name "" || str_eq p.created_by_id "")
      Error.validation
  has_db ← ask (λ c. c.has_db)
  refuse_if (not has_db) Error.not_configured
  now ← time_now
  id ← new_uuid
  let w = new_work_order id (record p { usage_type = default_usage p.usage_type }) now
  transaction (create_work_order_tx w (get_option p.planned_qty 0))
  pure w

-- A field that a PATCH leaves out is `none`; one that it sets to null is `some none`.
pub record UpdateParams : Type 0 where
  pub customer_name : Option String
  pub request_number : Option (Option String)
  pub customer_phone : Option (Option String)
  pub note : Option (Option String)
  pub gps_lat : Option (Option Coordinate)
  pub gps_lng : Option (Option Coordinate)
  pub planned_qty : Option ℕ
  pub install_date : Option ℕ
  pub removal_date : Option ℕ
  pub assigned_to_id : Option (Option String)

abbrev pub normalized_field : (String → String) → Option (Option String) → Option (Option String)
normalized_field nfc none = none
normalized_field nfc (some value) = some (normalize_optional_identifier nfc value)

abbrev pub normalized_update : (String → String) → UpdateParams → UpdateParams
normalized_update nfc p = record p {
  customer_name = normalize_optional_identifier nfc p.customer_name;
  customer_phone = normalized_field nfc p.customer_phone;
  request_number = normalized_field nfc p.request_number;
  assigned_to_id = normalized_field nfc p.assigned_to_id;
}

abbrev pub is_blank_field : Option (Option String) → Bool
is_blank_field none = false
is_blank_field (some value) = is_blank value

-- A given date or quantity takes the place of the old one.
abbrev pub or_old : Option ℕ → Option ℕ → Option ℕ
or_old none old = old
or_old (some new) old = some new

-- The fields that UpdateScheduled edits before it validates the plan.
abbrev pub edited : UpdateParams → WorkOrder → WorkOrder
edited p w = record w {
  customer_name = get_option p.customer_name w.customer_name;
  customer_phone = get_option p.customer_phone w.customer_phone;
  request_number = get_option p.request_number w.request_number;
  note = get_option p.note w.note;
  gps_lat = get_option p.gps_lat w.gps_lat;
  gps_lng = get_option p.gps_lng w.gps_lng;
  planned_qty = or_old p.planned_qty w.planned_qty;
  install_date = or_old p.install_date w.install_date;
  removal_date = or_old p.removal_date w.removal_date;
}

-- The body of the transaction of `UpdateScheduled`.
unfoldable pub update_scheduled_tx : String → UpdateParams → Action WorkOrder
update_scheduled_tx id p = do
  found ← find_by_id_for_update id
  refuse_if (not (status_eq found.status WorkOrderStatus.scheduled)) Error.state_invalid
  refuse_if (is_blank p.customer_name) Error.validation
  let w = edited p found
  refuse_if (not (is_plan w.planned_qty w.install_date w.removal_date)) Error.validation
  lock_planning_office w.office_id
  validate_given_target w.office_id (get_option p.assigned_to_id none)
  ensure_planned_qty_available w.office_id (get_option w.planned_qty 0) (some id)
  now ← time_now
  let current = record w {
    assigned_to_id = get_option p.assigned_to_id w.assigned_to_id;
    updated_at = now;
  }
  update_scheduled_row current
  if is_some p.assigned_to_id && not (same_optional_string w.assigned_to_id current.assigned_to_id)
      then create_assignment_notification current.id current.assigned_to_id
      else pure tt
  pure current

-- `UpdateScheduled`
unfoldable pub update_scheduled : String → UpdateParams → Action WorkOrder
update_scheduled given_id given = do
  has_db ← ask (λ c. c.has_db)
  refuse_if (not has_db) Error.not_configured
  nfc ← ask (λ c. c.nfc)
  let p = normalized_update nfc given
  refuse_if (is_blank_field p.assigned_to_id) Error.validation
  transaction (update_scheduled_tx (normalize_identifier nfc given_id) p)

-- The write of `Assign`, unless the work order is the user's already.
unfoldable pub assign_step : String → WorkOrder → Action (Unit {0})
assign_step user_id found =
    if same_optional_string found.assigned_to_id (some user_id)
    then pure tt
    else time_now >>= λ now.
        update_work_order (record found { assigned_to_id = some user_id; updated_at = now })
        >> create_assignment_notification found.id (some user_id)

-- The body of the transaction of `Assign`.
unfoldable pub assign_tx : String → String → Action (Unit {0})
assign_tx id user_id = do
  found ← find_by_id_for_update id
  refuse_if (not (can_assign found.status)) Error.state_invalid
  validate_assignment_target found.office_id user_id
  assign_step user_id found

-- `Assign`
unfoldable pub assign : String → String → Action (Unit {0})
assign given_id given_user_id = do
  has_db ← ask (λ c. c.has_db)
  refuse_if (not has_db) Error.not_configured
  nfc ← ask (λ c. c.nfc)
  let user_id = normalize_identifier nfc given_user_id
  refuse_if (str_eq user_id "") Error.validation
  transaction (assign_tx (normalize_identifier nfc given_id) user_id)

-- DELETE FROM installations WHERE work_order_id = ? AND installed_at IS NULL
unfoldable pub release_drafts : String → Action (Unit {0})
release_drafts id =
    execute (λ db. record db { installations = delete_where (is_draft_of id) db.installations })

-- The body of the transaction of `Cancel`.
unfoldable pub cancel_work_order_tx : String → String → Action (Unit {0})
cancel_work_order_tx id reason = do
  found ← find_by_id_for_update id
  refuse_if (not (is_valid_transition found.status WorkOrderStatus.cancelled)) Error.state_invalid
  lock_planning_office found.office_id
  release_drafts found.id
  now ← time_now
  update_work_order (record found {
    status = WorkOrderStatus.cancelled;
    updated_at = now;
    note = if str_eq reason "" then found.note else some reason;
  })

-- `Cancel`
unfoldable pub cancel_work_order : String → String → Action (Unit {0})
cancel_work_order given_id reason = do
  has_db ← ask (λ c. c.has_db)
  refuse_if (not has_db) Error.not_configured
  nfc ← ask (λ c. c.nfc)
  transaction (cancel_work_order_tx (normalize_identifier nfc given_id) (trim_space reason))
