-- ===== src/Borrow/Lifecycle.antt =====
-- lifecycle.go: the operations on an existing borrow. An operation returns what repo.FindByID
-- returns after it.
pub mod Simple
pub mod Cancel
pub mod Covers
pub mod Activate
pub mod Return
pub mod Overdue
use scc_backend.Base.{
  ℕ, String, Bool, true, false, not, ◌&&◌, ◌||◌, Option, none, some, List, [], ◌∷◌, str_eq, ◌==◌,
  ltb, length, select_where, count_where, update_where, order_by, if◌then◌else◌, trim_space,
  to_lower_ascii,
}
use scc_backend.Domain.Role.{Role, role_eq}
use scc_backend.Domain.Cover.{CoverStatus}
use scc_backend.Domain.Cover
use scc_backend.Domain.Borrow.{BorrowStatus, status_eq, is_valid_transition}
use scc_backend.Store.{Db, BorrowRow, Cover}
use scc_backend.Effect.{
  Error, Action, ◌>>=◌, ◌>>◌, pure, fail, refuse_if, query, update_rows, time_now, transaction, ask,
}
use scc_backend.Discrepancy.Shortfall.{record_borrow_return_capacity_shortfall}
use scc_backend.Borrow.Actor.{
  Actor, validate_actor_claims, ensure_active_actor, is_exec_of_office, can_cancel,
  can_support_or_lender_exec, normalize_reason, normalize_support_reason,
}
use scc_backend.Borrow.Rows.{
  Extra, lock_planning_office, load_borrow_state, update_borrow_status, release_reservations,
  reservation_cover_ids, lock_cover_state, has_open_installation,
}
use scc_backend.Borrow.Events.{
  AuditParams, insert_audit, enqueue_creator_notification,
  dispatch_notifications_without_affecting_state,
}
use scc_backend.Borrow.Detail.{Borrow, find_by_id}

-- The audit entry of an actor's transition.
abbrev pub audit_of :
    String → String → BorrowStatus → BorrowStatus → Actor → Option String → ℕ → AuditParams
audit_of borrow_id action from to actor reason now = record {
  borrow_id = borrow_id;
  action = action;
  from_status = some from;
  to_status = to;
  actor = some actor;
  actor_role = "";
  reason = reason;
  created_at = now;
}

pub record SimpleStateChange : Type 0 where
  pub id : String
  pub actor : Actor
  pub action : String
  pub from : BorrowStatus
  pub to : BorrowStatus
  pub reason : Option String
  pub releases_reservations : Bool
  pub authorize : BorrowRow → Actor → Bool
  pub extra_updates : Actor → Extra
  pub notification_type : String
  pub notification_text : String

-- `if change.ReleaseReservations { … }`
unfoldable pub release_step : SimpleStateChange → ℕ → BorrowRow → Action (Unit {0})
release_step change now row =
    if change.releases_reservations
    then lock_planning_office row.lender_office_id
      >> release_reservations row.id row.requested_qty now
    else pure tt

-- `if change.NotificationType == "" { return nil }`, and the notification.
unfoldable pub tell_step : SimpleStateChange → ℕ → BorrowRow → Action (Unit {0})
tell_step change now row =
    if str_eq change.notification_type ""
    then pure tt
    else enqueue_creator_notification row change.notification_type change.notification_text
        (to_lower_ascii change.action) now

-- The body of the transaction of `changeSimpleState`.
unfoldable pub simple_state_tx : SimpleStateChange → ℕ → Action (Unit {0})
simple_state_tx change now = do
  ensure_active_actor change.actor
  row ← load_borrow_state change.id
  refuse_if (not (change.authorize row change.actor)) Error.forbidden
  refuse_if (not (status_eq row.status change.from)) Error.state_invalid
  refuse_if (not (is_valid_transition change.from change.to)) Error.state_invalid
  release_step change now row
  update_borrow_status row.id change.from change.to now (change.extra_updates change.actor)
  insert_audit (audit_of row.id change.action change.from change.to change.actor change.reason now)
  tell_step change now row

-- `changeSimpleState`
unfoldable pub change_simple_state : SimpleStateChange → Action (Option Borrow)
change_simple_state given = do
  validate_actor_claims given.actor
  let change = record given { id = trim_space given.id }
  now ← time_now
  transaction (simple_state_tx change now)
  dispatch_notifications_without_affecting_state change.id
  find_by_id change.id

abbrev pub is_lender_exec : BorrowRow → Actor → Bool
is_lender_exec row actor = is_exec_of_office actor row.lender_office_id

abbrev pub approval : String → Actor → SimpleStateChange
approval id actor = record {
  id = id;
  actor = actor;
  action = "APPROVE";
  from = BorrowStatus.requested;
  to = BorrowStatus.approved;
  reason = none;
  releases_reservations = false;
  authorize = is_lender_exec;
  extra_updates = λ a. Extra.approved_by a.id;
  notification_type = "BORROW_APPROVED";
  notification_text = "คำขอยืมฉนวนได้รับอนุมัติแล้ว";
}

-- `Approve`
unfoldable pub approve : String → Actor → Action (Option Borrow)
unfolding change_simple_state
approve id actor = change_simple_state (approval id actor)

abbrev pub rejection : String → Actor → Option String → SimpleStateChange
rejection id actor reason = record {
  id = id;
  actor = actor;
  action = "REJECT";
  from = BorrowStatus.requested;
  to = BorrowStatus.rejected;
  reason = reason;
  releases_reservations = true;
  authorize = is_lender_exec;
  extra_updates = λ a. Extra.nothing;
  notification_type = "BORROW_REJECTED";
  notification_text = "คำขอยืมฉนวนถูกปฏิเสธ";
}

-- `Reject`
unfoldable pub reject : String → Actor → String → Action (Option Borrow)
unfolding change_simple_state
reject id actor reason = do
  normalized ← normalize_reason reason true
  change_simple_state (rejection id actor normalized)

-- The body of the transaction of `Cancel`.
unfoldable pub cancel_tx : String → Actor → Option String → ℕ → Action (Unit {0})
cancel_tx id actor reason now = do
  ensure_active_actor actor
  row ← load_borrow_state id
  refuse_if (not (can_cancel row actor)) Error.forbidden
  refuse_if
      (not (status_eq row.status BorrowStatus.requested)
        && not (status_eq row.status BorrowStatus.approved))
      Error.state_invalid
  lock_planning_office row.lender_office_id
  release_reservations row.id row.requested_qty now
  update_borrow_status row.id row.status BorrowStatus.cancelled now Extra.nothing
  insert_audit (audit_of row.id "CANCEL" row.status BorrowStatus.cancelled actor reason now)

-- `Cancel`
unfoldable pub cancel : String → Actor → String → Action (Option Borrow)
cancel given_id actor reason = do
  normalized ← normalize_reason reason false
  validate_actor_claims actor
  refuse_if (role_eq actor.role Role.admin) Error.forbidden
  let id = trim_space given_id
  now ← time_now
  transaction (cancel_tx id actor normalized now)
  find_by_id id

abbrev pub is_at : String → String → Cover → Bool
is_at owner current cover =
    Cover.status_eq cover.status CoverStatus.in_stock
    && str_eq cover.owner_office_id owner
    && str_eq cover.current_office_id current

-- The first loop of `Activate`: every reserved cover stands at the lender.
unfoldable pub check_at_lender : BorrowRow → List String → Action (Unit {0})
check_at_lender row [] = pure tt
check_at_lender row (cover_id ∷ rest) = do
  cover ← lock_cover_state cover_id
  refuse_if (not (is_at row.lender_office_id row.lender_office_id cover)) Error.conflict
  is_open ← has_open_installation cover_id
  refuse_if is_open Error.conflict
  check_at_lender row rest

-- WHERE id = ? AND current_office_id = ? AND status = 'IN_STOCK'
abbrev pub is_stock_of : String → String → Cover → Bool
is_stock_of cover_id office r =
    str_eq r.id cover_id
    && str_eq r.current_office_id office
    && Cover.status_eq r.status CoverStatus.in_stock

abbrev pub moved_to : String → ℕ → Cover → Cover
moved_to office now r = record r { current_office_id = office; updated_at = now }

-- The second loop of `Activate`, and of `Return`: each cover is handed over in one guarded UPDATE.
unfoldable pub move_covers : String → String → ℕ → List String → Action (Unit {0})
move_covers from to now [] = pure tt
move_covers from to now (cover_id ∷ rest) = do
  affected ←
      update_rows (λ db. count_where (is_stock_of cover_id from) db.covers)
        (λ db. record db {
          covers = update_where (is_stock_of cover_id from) (moved_to to now) db.covers;
        })
  refuse_if (not (affected == 1)) Error.conflict
  move_covers from to now rest

-- The steps of `Activate` after its guards.
unfoldable pub hand_over : Actor → Option String → ℕ → BorrowRow → List String → Action (Unit {0})
hand_over actor reason now row cover_ids = do
  check_at_lender row cover_ids
  move_covers row.lender_office_id row.borrower_office_id now cover_ids
  release_reservations row.id row.requested_qty now
  update_borrow_status row.id BorrowStatus.approved BorrowStatus.on_loan now
      (Extra.activated now actor.id)
  insert_audit
      (audit_of row.id "ACTIVATE" BorrowStatus.approved BorrowStatus.on_loan actor reason now)
  enqueue_creator_notification row "BORROW_ACTIVATED" "ผู้ให้ยืมยืนยันส่งมอบฉนวนแล้ว" "activated"
      now

-- The body of the transaction of `Activate`.
unfoldable pub activate_tx : String → Actor → Option String → ℕ → Action (Unit {0})
activate_tx id actor reason now = do
  ensure_active_actor actor
  row ← load_borrow_state id
  refuse_if (not (can_support_or_lender_exec row actor)) Error.forbidden
  refuse_if (not (status_eq row.status BorrowStatus.approved)) Error.state_invalid
  lock_planning_office row.lender_office_id
  cover_ids ← reservation_cover_ids row.id true
  refuse_if (not (length cover_ids == row.requested_qty)) Error.conflict
  hand_over actor reason now row cover_ids

-- `Activate`
unfoldable pub activate : String → Actor → String → Action (Option Borrow)
activate given_id actor reason = do
  validate_actor_claims actor
  normalized ← normalize_support_reason actor reason
  let id = trim_space given_id
  now ← time_now
  transaction (activate_tx id actor normalized now)
  dispatch_notifications_without_affecting_state id
  find_by_id id

-- The audit entry of the system's transition.
abbrev pub audit_overdue : String → ℕ → AuditParams
audit_overdue borrow_id now = record {
  borrow_id = borrow_id;
  action = "MARK_OVERDUE";
  from_status = some BorrowStatus.on_loan;
  to_status = BorrowStatus.overdue;
  actor = none;
  actor_role = "system";
  reason = none;
  created_at = now;
}

-- `markOneOverdueTx`
unfoldable pub mark_one_overdue : BorrowRow → ℕ → Action (Unit {0})
mark_one_overdue row now = do
  update_borrow_status row.id BorrowStatus.on_loan BorrowStatus.overdue now Extra.nothing
  insert_audit (audit_overdue row.id now)
  enqueue_creator_notification row "BORROW_OVERDUE" "ใบยืมฉนวนเกินกำหนดคืน" "overdue" now

-- The first loop of `Return`. It returns `physicalConflict`: a cover that is still installed ends
-- the transaction, with the borrow marked overdue, and without an error that would undo that.
unfoldable pub check_returnable : BorrowRow → ℕ → List String → Action (Option Error)
check_returnable row now [] = pure none
check_returnable row now (cover_id ∷ rest) = do
  cover ← lock_cover_state cover_id
  is_open ← has_open_installation cover_id
  if Cover.status_eq cover.status CoverStatus.installed || is_open
      then (if status_eq row.status BorrowStatus.on_loan then mark_one_overdue row now else pure tt)
        >> pure (some Error.conflict)
      else refuse_if (not (is_at row.lender_office_id row.borrower_office_id cover)) Error.conflict
        >> check_returnable row now rest

-- The steps of `Return` once every cover has been found returnable.
unfoldable pub take_back : Actor → Option String → ℕ → BorrowRow → List String → Action (Unit {0})
take_back actor reason now row cover_ids = do
  move_covers row.borrower_office_id row.lender_office_id now cover_ids
  record_borrow_return_capacity_shortfall row.borrower_office_id row.id now
  update_borrow_status row.id row.status BorrowStatus.returned now (Extra.returned now actor.id)
  insert_audit (audit_of row.id "RETURN" row.status BorrowStatus.returned actor reason now)
  enqueue_creator_notification row "BORROW_RETURNED" "ผู้ให้ยืมยืนยันรับคืนฉนวนแล้ว" "returned" now

-- What follows the first loop, by the conflict that it found.
unfoldable pub finish_return :
    Actor → Option String → ℕ → BorrowRow → List String → Option Error → Action (Option Error)
finish_return actor reason now row cover_ids none =
    take_back actor reason now row cover_ids >> pure none
finish_return actor reason now row cover_ids (some e) = pure (some e)

-- The body of the transaction of `Return`.
unfoldable pub return_tx : String → Actor → Option String → ℕ → Action (Option Error)
return_tx id actor reason now = do
  ensure_active_actor actor
  row ← load_borrow_state id
  refuse_if (not (can_support_or_lender_exec row actor)) Error.forbidden
  refuse_if
      (not (status_eq row.status BorrowStatus.on_loan)
        && not (status_eq row.status BorrowStatus.overdue))
      Error.state_invalid
  lock_planning_office row.borrower_office_id
  cover_ids ← reservation_cover_ids row.id false
  refuse_if (not (length cover_ids == row.requested_qty)) Error.conflict
  physical_conflict ← check_returnable row now cover_ids
  finish_return actor reason now row cover_ids physical_conflict

-- What `Return` returns once its transaction has committed.
unfoldable pub returned_outcome : String → Option Error → Action (Option Borrow)
returned_outcome id none = find_by_id id
returned_outcome id (some e) = fail e

-- `Return`
unfoldable pub return_borrow : String → Actor → String → Action (Option Borrow)
return_borrow given_id actor reason = do
  validate_actor_claims actor
  normalized ← normalize_support_reason actor reason
  let id = trim_space given_id
  now ← time_now
  physical_conflict ← transaction (return_tx id actor normalized now)
  dispatch_notifications_without_affecting_state id
  returned_outcome id physical_conflict

unfoldable pub mark_all_overdue : ℕ → List BorrowRow → Action (Unit {0})
mark_all_overdue now [] = pure tt
mark_all_overdue now (row ∷ rows) = mark_one_overdue row now >> mark_all_overdue now rows

-- WHERE status = 'ON_LOAN' AND return_date < ?
abbrev pub is_overdue : ℕ → BorrowRow → Bool
is_overdue now r = status_eq r.status BorrowStatus.on_loan && ltb r.return_date now

-- The body of the transaction of `MarkOverdue`.
unfoldable pub mark_overdue_tx : ℕ → Action (Unit {0})
mark_overdue_tx now = do
  before ← ask (λ c. c.before)
  rows ← query (λ db. order_by (λ a b. before a.id b.id) (select_where (is_overdue now) db.borrows))
  mark_all_overdue now rows

-- `MarkOverdue`
unfoldable pub mark_overdue : ℕ → Action (Unit {0})
mark_overdue now = do
  has_db ← ask (λ c. c.has_db)
  refuse_if (not has_db) Error.not_configured
  transaction (mark_overdue_tx now)
  dispatch_notifications_without_affecting_state ""
