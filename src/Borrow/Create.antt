-- ===== src/Borrow/Create.antt =====
-- service.go: `Create` selects and reserves exact covers of the lender.
pub mod Reserve
pub mod Done
use scc_backend.Base.{
  ℕ, String, Bool, true, false, not, ◌&&◌, ◌||◌, Option, none, some, List, [], ◌∷◌, str_eq, ◌==◌,
  ltb, length, count_where, take_where, if◌then◌else◌, trim_space, cat_all, decimal,
}
use scc_backend.Domain.Role.{Role, role_eq}
use scc_backend.Domain.Borrow.{BorrowStatus}
use scc_backend.Store.{Db, Office, BorrowRow, BorrowCover}
use scc_backend.Effect.{
  Error, Action, ◌>>=◌, ◌>>◌, pure, refuse_if, query, or_fail, insert_unless, new_uuid, time_now,
  transaction, ask, map_error,
}
use scc_backend.Borrow.Actor.{
  Actor, validate_actor_claims, ensure_active_actor, normalize_optional_text,
}
use scc_backend.Borrow.Rows.{lock_planning_office}
use scc_backend.Borrow.Events.{
  AuditParams, insert_audit, enqueue_lender_exec_notifications,
  dispatch_notifications_without_affecting_state,
}
use scc_backend.Borrow.Capacity.{
  is_active, capacity_snapshot, select_eligible_cover_ids, ensure_cover_eligible,
}
use scc_backend.Borrow.Detail.{Borrow, find_by_id}

-- A quantity below 1 is refused; 0 stands for those.
pub record CreateParams : Type 0 where
  pub lender_office_id : String
  pub requested_qty : ℕ
  pub return_date : ℕ
  pub note : Option String
  pub actor : Actor

-- `ensureOfficeExistsTx`
unfoldable pub ensure_office_exists : String → Action (Unit {0})
ensure_office_exists office_id = do
  count ← query (λ db. count_where (λ o. str_eq o.id office_id) db.offices)
  refuse_if (not (count == 1)) Error.validation

abbrev name_of : Option Office → String
name_of none = ""
name_of (some o) = o.name

-- `officeNameTx`: a missing row scans as the empty name.
unfoldable pub office_name : String → Action String
office_name office_id = do
  name ← query (λ db. name_of (take_where (λ o. str_eq o.id office_id) db.offices))
  refuse_if (str_eq (trim_space name) "") Error.validation
  pure name

-- The loop that checks each selected cover again.
unfoldable pub ensure_all_eligible : String → List String → Action (Unit {0})
ensure_all_eligible lender_office_id [] = pure tt
ensure_all_eligible lender_office_id (cover_id ∷ rest) =
    ensure_cover_eligible cover_id lender_office_id >> ensure_all_eligible lender_office_id rest

-- The unique keys of borrow_covers: the id, the pair of borrow and cover, and the cover of an active
-- reservation.
abbrev pub is_link_taken : BorrowCover → List BorrowCover → Bool
is_link_taken l links = ltb 0 (
    count_where
      (λ r.
        str_eq r.id l.id
        || (str_eq r.borrow_id l.borrow_id && str_eq r.cover_id l.cover_id)
        || (str_eq r.cover_id l.cover_id && is_active r))
      links)

abbrev pub new_link : String → String → ℕ → String → BorrowCover
new_link borrow_id cover_id now id = record {
  id = id;
  borrow_id = borrow_id;
  cover_id = cover_id;
  released_at = none;
  created_at = now;
}

-- The loop that inserts the reservations.
unfoldable pub reserve_all : String → ℕ → List String → Action (Unit {0})
reserve_all borrow_id now [] = pure tt
reserve_all borrow_id now (cover_id ∷ rest) = do
  id ← new_uuid
  map_error (λ e. Error.conflict)
      (insert_unless (λ db. is_link_taken (new_link borrow_id cover_id now id) db.borrow_covers)
        (λ db. record db { borrow_covers = new_link borrow_id cover_id now id ∷ db.borrow_covers }))
  reserve_all borrow_id now rest

abbrev pub new_borrow : String → String → CreateParams → Option String → ℕ → BorrowRow
new_borrow id borrower_office_id p note now = record {
  id = id;
  borrower_office_id = borrower_office_id;
  lender_office_id = p.lender_office_id;
  status = BorrowStatus.requested;
  requested_qty = p.requested_qty;
  note = note;
  return_date = p.return_date;
  created_by_id = p.actor.id;
  approved_by_id = none;
  activated_by_id = none;
  returned_by_id = none;
  created_at = now;
  updated_at = now;
  activated_at = none;
  returned_at = none;
}

-- The INSERT into borrows, which the primary key may refuse.
unfoldable pub insert_borrow : BorrowRow → Action (Unit {0})
insert_borrow b =
    insert_unless (λ db. ltb 0 (count_where (λ r. str_eq r.id b.id) db.borrows))
      (λ db. record db { borrows = b ∷ db.borrows })

abbrev pub creation_audit : String → Actor → ℕ → AuditParams
creation_audit borrow_id actor now = record {
  borrow_id = borrow_id;
  action = "CREATE";
  from_status = none;
  to_status = BorrowStatus.requested;
  actor = some actor;
  actor_role = "";
  reason = none;
  created_at = now;
}

abbrev request_message : ℕ → String → String
request_message quantity office =
    cat_all ("มีคำขอยืมฉนวน " ∷ decimal quantity ∷ " ชิ้นจากสำนักงาน " ∷ office ∷ [])

-- The check that enough covers were found; it reads the capacity again for its error.
unfoldable pub settle_count : String → ℕ → List String → Action (Unit {0})
settle_count lender_office_id quantity cover_ids =
    if length cover_ids == quantity
    then pure tt
    else capacity_snapshot lender_office_id >>= λ latest.
        refuse_if true (Error.insufficient_stock quantity latest.borrowable_capacity)

-- The covers of the request, once the capacity allows it.
unfoldable pub choose_covers : String → ℕ → Action (List String)
choose_covers lender_office_id quantity = do
  snapshot ← capacity_snapshot lender_office_id
  refuse_if (ltb snapshot.borrowable_capacity quantity)
      (Error.insufficient_stock quantity snapshot.borrowable_capacity)
  cover_ids ← select_eligible_cover_ids lender_office_id quantity
  settle_count lender_office_id quantity cover_ids
  ensure_all_eligible lender_office_id cover_ids
  pure cover_ids

-- The body of the transaction of `Create`.
unfoldable pub create_tx : CreateParams → String → Option String → String → ℕ → Action (Unit {0})
create_tx p borrower_office_id note borrow_id now = do
  ensure_active_actor p.actor
  ensure_office_exists p.lender_office_id
  lock_planning_office p.lender_office_id
  cover_ids ← choose_covers p.lender_office_id p.requested_qty
  insert_borrow (new_borrow borrow_id borrower_office_id p note now)
  reserve_all borrow_id now cover_ids
  insert_audit (creation_audit borrow_id p.actor now)
  name ← office_name borrower_office_id
  enqueue_lender_exec_notifications borrow_id p.lender_office_id "BORROW_REQUESTED"
      (request_message p.requested_qty name) "requested" now

-- `Create`. The lender's id has no surrounding white space once the guards are passed.
unfoldable pub create : CreateParams → Action (Option Borrow)
create p = do
  is_configured ← ask (λ c. c.has_db && c.has_repo)
  refuse_if (not is_configured) Error.not_configured
  validate_actor_claims p.actor
  refuse_if (not (role_eq p.actor.role Role.exec) && not (role_eq p.actor.role Role.tech))
      Error.forbidden
  borrower_office_id ← or_fail p.actor.office_id Error.forbidden
  let lender = trim_space p.lender_office_id
  refuse_if (str_eq lender "" || not (str_eq lender p.lender_office_id)) Error.validation
  refuse_if (str_eq lender borrower_office_id) Error.validation
  refuse_if (ltb p.requested_qty 1) Error.validation
  now ← time_now
  refuse_if (p.return_date == 0 || not (ltb now p.return_date)) Error.validation
  note ← normalize_optional_text p.note 500
  borrow_id ← new_uuid
  transaction (create_tx p borrower_office_id note borrow_id now)
  dispatch_notifications_without_affecting_state borrow_id
  find_by_id borrow_id
