-- ===== src/Discrepancy/Shortfall.antt =====
-- RecordBorrowReturnCapacityShortfallTx of discrepancy/service.go, and the audit and notification
-- rows that it writes.
pub mod Reports
pub mod Told
use scc_backend.Base.{
  ℕ, ◌+◌, String, Bool, true, false, not, ◌&&◌, ◌||◌, Option, none, some, List, [], ◌∷◌, map,
  str_eq, ◌==◌, ltb, leb, is_some, count_where, select_where, order_by, if◌then◌else◌, cat_all,
  trim_space,
}
use scc_backend.Domain.Role.{Role, role_eq}
use scc_backend.Domain.Cover.{CoverStatus}
use scc_backend.Domain.Cover
use scc_backend.Domain.WorkOrder.{WorkOrderStatus, WorkOrderType}
use scc_backend.Domain.WorkOrder
use scc_backend.Store.{Db, WorkOrder, Cover, Discrepancy, DiscrepancyAudit, Notification}
use scc_backend.Effect.{
  Error, Action, ◌>>=◌, ◌>>◌, pure, refuse_if, query, insert_or_ignore, insert_unless, new_uuid,
  ask,
}

-- COALESCE(SUM(planned_qty), 0): a null adds nothing.
abbrev pub sum_planned : List WorkOrder → ℕ
sum_planned [] = 0
sum_planned (w ∷ ws) = (elim w.planned_qty [ none ↦ 0 | some n ↦ n ]) + sum_planned ws

-- WHERE office_id = ? AND type = 'INSTALL' AND status = 'SCHEDULED'
abbrev pub is_planned_at : String → WorkOrder → Bool
is_planned_at office w =
    str_eq w.office_id office
    && WorkOrder.type_eq w.kind WorkOrderType.install
    && WorkOrder.status_eq w.status WorkOrderStatus.scheduled

abbrev pub reserved_planned : String → Db → ℕ
reserved_planned office db = sum_planned (select_where (is_planned_at office) db.work_orders)

-- WHERE current_office_id = ? AND status = 'IN_STOCK'
abbrev pub is_stock_at : String → Cover → Bool
is_stock_at office r =
    str_eq r.current_office_id office && Cover.status_eq r.status CoverStatus.in_stock

abbrev pub shortfall_key : String → String
shortfall_key borrow_id = cat_all ("borrow-return:" ∷ borrow_id ∷ ":capacity-shortfall" ∷ [])

abbrev pub has_discrepancy_key : String → Discrepancy → Bool
has_discrepancy_key key d = elim d.dedup_key [ none ↦ false | some k ↦ str_eq k key ]

abbrev pub key_count : String → Db → ℕ
key_count key db = count_where (has_discrepancy_key key) db.discrepancies

abbrev pub shortfall_reason : String
shortfall_reason = "การคืนยืมทำให้จำนวนฉนวนคงเหลือต่ำกว่าปริมาณที่ใบงานกำหนดไว้"

abbrev pub shortfall_row : String → String → String → ℕ → ℕ → ℕ → Discrepancy
shortfall_row id office borrow_id expected observed now = record {
  id = id;
  office_id = office;
  kind = "CAPACITY_SHORTFALL";
  status = "OPEN";
  reason = shortfall_reason;
  expected_qty = some expected;
  observed_qty = some observed;
  borrow_id = some borrow_id;
  dedup_key = some (shortfall_key borrow_id);
  created_at = now;
  updated_at = now;
}

-- `insertAuditTx` of the discrepancy service.
unfoldable pub insert_discrepancy_audit :
    String → String → Option String → String → String → ℕ → Action (Unit {0})
insert_discrepancy_audit discrepancy_id action actor_id actor_role note created_at = do
  id ← new_uuid
  insert_unless (λ db. ltb 0 (count_where (λ a. str_eq a.id id) db.discrepancy_audit_events))
      (λ db. record db {
        discrepancy_audit_events =
            record {
              id = id;
              discrepancy_id = discrepancy_id;
              action = action;
              actor_id = actor_id;
              actor_role = actor_role;
              note = note;
              created_at = created_at;
            }
            ∷ db.discrepancy_audit_events;
      })

abbrev pub notification_has_key : String → Notification → Bool
notification_has_key key n = elim n.dedup_key [ none ↦ false | some k ↦ str_eq k key ]

abbrev pub discrepancy_notification :
    String → String → String → String → String → String → ℕ → Notification
discrepancy_notification id user_id discrepancy_id kind message key created_at = record {
  id = id;
  user_id = user_id;
  kind = kind;
  message = message;
  work_order_id = none;
  borrow_id = none;
  discrepancy_id = some discrepancy_id;
  dedup_key = some key;
  created_at = created_at;
}

-- `insertNotificationTx`: ON CONFLICT (dedup_key) DO NOTHING
unfoldable pub insert_notification :
    String → String → String → String → String → ℕ → Action (Unit {0})
insert_notification user_id discrepancy_id kind message key created_at = do
  id ← new_uuid
  insert_unless
      (λ db.
        ltb 0 (count_where (λ r. str_eq r.id id) db.notifications)
        && not (ltb 0 (count_where (notification_has_key key) db.notifications)))
      (λ db. record db {
        notifications =
            if ltb 0 (count_where (notification_has_key key) db.notifications)
            then db.notifications
            else discrepancy_notification id user_id discrepancy_id kind message key created_at
              ∷ db.notifications;
      })

unfoldable pub notify_all : String → String → String → String → ℕ → List String → Action (Unit {0})
notify_all discrepancy_id kind message event created_at [] = pure tt
notify_all discrepancy_id kind message event created_at (user_id ∷ rest) =
    insert_notification user_id discrepancy_id kind message
      (cat_all ("discrepancy:" ∷ discrepancy_id ∷ ":" ∷ event ∷ ":" ∷ user_id ∷ [])) created_at
    >> notify_all discrepancy_id kind message event created_at rest

-- `notifyActiveAdminsTx`
unfoldable pub notify_active_admins : String → String → String → String → ℕ → Action (Unit {0})
notify_active_admins discrepancy_id kind message event created_at = do
  before ← ask (λ c. c.before)
  recipients ← query (λ db.
      map (λ u. u.id)
        (order_by (λ a b. before a.id b.id)
          (select_where (λ u. role_eq u.role Role.admin && u.is_active) db.users)))
  notify_all discrepancy_id kind message event created_at recipients

-- What is done when the plan exceeds the stock that is left.
unfoldable pub report_shortfall : String → String → ℕ → ℕ → ℕ → Action (Unit {0})
report_shortfall office borrow_id planned remaining now = do
  id ← new_uuid
  inserted ←
      insert_or_ignore (λ db. ltb 0 (key_count (shortfall_key borrow_id) db))
        (λ db. ltb 0 (count_where (λ d. str_eq d.id id) db.discrepancies))
        (λ db. record db {
          discrepancies =
              shortfall_row id office borrow_id planned remaining now ∷ db.discrepancies;
        })
  if inserted == 0
      then pure tt
      else insert_discrepancy_audit id "CREATE" none "system" shortfall_reason now
        >> notify_active_admins id "DISCREPANCY_REPORTED"
            "ระบบพบกำลังสต็อกต่ำกว่าใบงานที่กำหนดไว้หลังการคืนยืม" "reported" now

-- `RecordBorrowReturnCapacityShortfallTx`
unfoldable pub record_borrow_return_capacity_shortfall : String → String → ℕ → Action (Unit {0})
record_borrow_return_capacity_shortfall borrower_office_id borrow_id now =
    let office = trim_space borrower_office_id in
    let borrow = trim_space borrow_id in
    do
      refuse_if (str_eq office "" || str_eq borrow "") Error.internal
      remaining ← query (λ db. count_where (is_stock_at office) db.covers)
      planned ← query (reserved_planned office)
      if leb planned remaining
          then pure tt
          else report_shortfall office borrow planned remaining now
