-- ===== src/WorkOrder/Planning.antt =====
-- workorder/service.go: what the plans of an office may take, and to whom a work order may be
-- assigned.
use scc_backend.Base.{
  ℕ, ◌-◌, String, Bool, false, not, ◌&&◌, Option, none, some, str_eq, ltb, count_where, take_where,
  select_where, if◌then◌else◌, trim_space, cat_all, [], ◌∷◌,
}
use scc_backend.Domain.Role.{Role, role_eq}
use scc_backend.Store.{Db, User, Notification}
use scc_backend.Effect.{
  Error, Action, ◌>>=◌, pure, refuse_if, query, or_fail, new_uuid, time_now, ask, insert_unless,
}
use scc_backend.Discrepancy.Shortfall.{sum_planned, is_planned_at, is_stock_at}
use scc_backend.Borrow.Capacity.{is_reserved_at}
use scc_backend.Borrow.Events.{is_in}

-- `normalizeBusinessIdentifier`; the first argument is `norm.NFC.String`.
abbrev pub normalize_identifier : (String → String) → String → String
normalize_identifier nfc value = nfc (trim_space value)

-- `normalizeOptionalIdentifier`
abbrev pub normalize_optional_identifier : (String → String) → Option String → Option String
normalize_optional_identifier nfc none = none
normalize_optional_identifier nfc (some value) = some (normalize_identifier nfc value)

-- A quantity below 1 is refused; 0 stands for those.
abbrev pub is_quantity : Option ℕ → Bool
is_quantity none = false
is_quantity (some n) = ltb 0 n

-- Both dates are there, and the removal is not before the installation.
abbrev pub are_dates : Option ℕ → Option ℕ → Bool
are_dates (some install) (some removal) = not (ltb removal install)
are_dates _ _ = false

-- `validatePlanningFields`: whether it returns no error
unfoldable pub is_plan : Option ℕ → Option ℕ → Option ℕ → Bool
is_plan planned_qty install_date removal_date =
    is_quantity planned_qty && are_dates install_date removal_date

abbrev pub is_excluded : Option String → String → Bool
is_excluded none id = false
is_excluded (some x) id = not (str_eq x "") && str_eq id x

-- The planned quantity that is reserved by scheduled work orders, but for the excluded one.
abbrev pub reserved_plans : String → Option String → Db → ℕ
reserved_plans office excluded db =
    sum_planned
      (select_where (λ w. is_planned_at office w && not (is_excluded excluded w.id)) db.work_orders)

-- `available`, cut off at 0
abbrev pub available : String → Option String → Db → ℕ
available office excluded db =
    let in_stock = count_where (is_stock_at office) db.covers in
    in_stock
    - reserved_plans office excluded db
    - count_where (is_reserved_at office db.borrows) db.borrow_covers

-- `ensurePlannedQtyAvailableTx`
unfoldable pub ensure_planned_qty_available : String → ℕ → Option String → Action (Unit {0})
ensure_planned_qty_available office planned_qty excluded = do
  in_stock ← query (λ db. count_where (is_stock_at office) db.covers)
  reserved ← query (reserved_plans office excluded)
  reserved_borrow ← query (λ db. count_where (is_reserved_at office db.borrows) db.borrow_covers)
  refuse_if (ltb (in_stock - reserved - reserved_borrow) planned_qty)
      (Error.insufficient_stock planned_qty (in_stock - reserved - reserved_borrow))

-- The user may be given work orders of the office.
abbrev pub is_technician_of : String → User → Bool
is_technician_of office u = u.is_active && role_eq u.role Role.tech && is_in office u.office_id

-- `validateAssignmentTargetTx`
unfoldable pub validate_assignment_target : String → String → Action (Unit {0})
validate_assignment_target office assigned_to_id = do
  found ← query (λ db. take_where (λ u. str_eq u.id assigned_to_id) db.users)
  target ← or_fail found Error.validation
  refuse_if (not (is_technician_of office target)) Error.validation

-- A notification without a dedup key: only its identifier may be taken.
unfoldable pub insert_plain_notification : Notification → Action (Unit {0})
insert_plain_notification n =
    insert_unless (λ db. ltb 0 (count_where (λ r. str_eq r.id n.id) db.notifications))
      (λ db. record db { notifications = n ∷ db.notifications })

abbrev pub assignment_notification : String → String → String → ℕ → Notification
assignment_notification id work_order_id user_id now = record {
  id = id;
  user_id = user_id;
  kind = "WORKORDER_ASSIGNED";
  message = cat_all ("คุณได้รับมอบหมายใบงาน " ∷ work_order_id ∷ []);
  work_order_id = some work_order_id;
  borrow_id = none;
  discrepancy_id = none;
  dedup_key = none;
  created_at = now;
}

unfoldable pub notify_assigned : String → String → Action (Unit {0})
unfolding insert_plain_notification
notify_assigned work_order_id user_id = do
  id ← new_uuid
  now ← time_now
  insert_plain_notification (assignment_notification id work_order_id user_id now)

-- `createAssignmentNotificationTx`, of the program's notification repository, which supports
-- transactions
unfoldable pub create_assignment_notification : String → Option String → Action (Unit {0})
unfolding notify_assigned
create_assignment_notification work_order_id none = pure tt
create_assignment_notification work_order_id (some user_id) = do
  has_notif_repo ← ask (λ c. c.has_notif_repo)
  if has_notif_repo then notify_assigned work_order_id user_id else pure tt
