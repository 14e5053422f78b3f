-- ===== src/Borrow/Tests.antt =====
-- The borrow service on concrete tables.
use scc_backend.Base.{
  ◌≡◌, refl, true, false, none, some, List, [], ◌∷◌, ◌⊎◌, count_where, trim_space, decimal, ◌≤◌,
  ◌+◌, to_lower_ascii, decimal,
}
use scc_backend.Domain.Borrow.{BorrowStatus, is_valid_transition}
use scc_backend.Domain.Cover.{CoverStatus}
use scc_backend.Domain.Role.{Role, is_valid}
use scc_backend.Borrow.Actor.{validate_actor_claims, actor_can_read}
use scc_backend.Borrow.Detail.{
  Borrow, canonical_of, borrow_from_canonical_row, list_cover_summaries, with_covers, find_by_id,
}
use scc_backend.Borrow.Reads.{
  ensure_readable_actor, get_by_id, MayRead, IsViewOf, get_by_id-IsViewOf,
}
use scc_backend.Domain.Graph.{stay, step, moves_left, BorrowPath-bounded}
use scc_backend.Store.{Db, BorrowRow}
use scc_backend.Effect.{
  Session, Error, ok, after, query, update_rows, insert_unless, new_uuid, statement,
}
use scc_backend.Discrepancy.Shortfall.{record_borrow_return_capacity_shortfall}
use scc_backend.Domain.Role.{requires_office}
use scc_backend.Domain.WorkOrder.{WorkOrderType, WorkOrderStatus, UsageType}
use scc_backend.Borrow.Actor.{
  ensure_active_actor, can_support_or_lender_exec, is_exec_of_office, can_cancel,
}
use scc_backend.Borrow.Events.{
  insert_audit, enqueue_lender_exec_notifications, enqueue_all, enqueue_creator_notification,
  enqueue_notification,
}
use scc_backend.Borrow.Rows.{
  find_borrow, load_borrow_state, lock_planning_office, reservation_cover_ids, lock_cover_state,
  has_open_installation, release_reservations, update_borrow_status,
}
use scc_backend.Borrow.Effects.{IsActiveActor, ordered_cover_ids}
use scc_backend.Borrow.Lifecycle.{
  activate_tx, return_tx, mark_overdue_tx, is_overdue, hand_over, check_at_lender, move_covers,
  check_returnable, finish_return, take_back, mark_all_overdue, mark_one_overdue,
}
use scc_backend.Borrow.Lifecycle.{simple_state_tx, rejection, release_step, tell_step, cancel_tx}
use scc_backend.Borrow.Lifecycle.Return.{IsStuck}
use scc_backend.Borrow.Capacity.{
  capacity_snapshot, select_eligible_cover_ids, ensure_cover_eligible,
}
use scc_backend.Borrow.Create.{
  create_tx, ensure_office_exists, choose_covers, settle_count, ensure_all_eligible, insert_borrow,
  reserve_all, office_name,
}
use scc_backend.Borrow.Create.Done.{CreateDone, create_tx-CreateDone}
use scc_backend.Borrow.Consistency.Moves.{Moved}
use scc_backend.Borrow.Lifecycle.Cancel.{after_cancel}
use scc_backend.Borrow.Progress.{cancel_tx-succeeds}
use scc_backend.Borrow.Transitions.{simple_state_tx-Moved, cancel_tx-Moved, return_tx-escalates}
use scc_backend.Borrow.Custody.{Transferred, activate_tx-transfers, return_tx-transfers}
use scc_backend.Borrow.Escalation.{mark_overdue_tx-leaves_none}
use scc_backend.Borrow.Consistency.{IsConsistent}
use scc_backend.Borrow.Calls.{Call, run}
use scc_backend.Borrow.Run.{run-IsConsistent, empty-IsConsistent}
use scc_backend.Borrow.Fixture.{start, calm, at, lender, asker, request, held, lent, b1, stuck}

abbrev story : List Call
story =
    Call.create_call request
    ∷ Call.approve_call "uuid-0" lender
    ∷ Call.activate_call "uuid-0" lender "handed over"
    ∷ Call.return_call "uuid-0" lender "taken back"
    ∷ Call.maintenance 9000
    ∷ []

run-IsConsistent_example : IsConsistent (run story calm (record (at start) { minted = 0 })).db
run-IsConsistent_example =
    run-IsConsistent story calm (record (at start) { minted = 0 })
      (empty-IsConsistent start refl refl refl refl)

abbrev activated : Session
activated = (activate_tx "b1" lender none 30 calm (at (held BorrowStatus.approved))).1

activates :
    activate_tx "b1" lender none 30 calm (at (held BorrowStatus.approved)) ≡ (ok tt, activated)
unfolding activate_tx hand_over check_at_lender move_covers ensure_active_actor
    can_support_or_lender_exec is_exec_of_office requires_office load_borrow_state
    lock_planning_office reservation_cover_ids lock_cover_state has_open_installation
    release_reservations update_borrow_status insert_audit enqueue_creator_notification
    enqueue_notification after query update_rows insert_unless new_uuid statement
activates = refl

activate_tx-transfers_example :
    (r : BorrowRow) × (find_borrow "b1" (held BorrowStatus.approved).borrows ≡ some r)
    × Transferred r.lender_office_id r.lender_office_id r.borrower_office_id 30
        (ordered_cover_ids calm.before r.id true (held BorrowStatus.approved))
        (held BorrowStatus.approved)
        activated.db
        "c1"
activate_tx-transfers_example =
    activate_tx-transfers "b1" lender none 30 calm (at (held BorrowStatus.approved)) activated "c1"
      activates

abbrev returned : Session
returned = (return_tx "b1" lender none 40 calm (at lent)).1

returns : return_tx "b1" lender none 40 calm (at lent) ≡ (ok none, returned)
unfolding return_tx trim_space check_returnable finish_return take_back
    record_borrow_return_capacity_shortfall move_covers ensure_active_actor
    can_support_or_lender_exec is_exec_of_office requires_office load_borrow_state
    lock_planning_office reservation_cover_ids lock_cover_state has_open_installation
    update_borrow_status insert_audit enqueue_creator_notification enqueue_notification after query
    update_rows insert_unless new_uuid statement
returns = refl

return_tx-transfers_example :
    (r : BorrowRow) × (find_borrow "b1" lent.borrows ≡ some r)
    × Transferred r.lender_office_id r.borrower_office_id r.lender_office_id 40
        (ordered_cover_ids calm.before r.id false lent)
        lent
        returned.db
        "c1"
return_tx-transfers_example =
    return_tx-transfers "b1" lender none 40 calm (at lent) returned "c1" returns

abbrev marked : Session
marked = (mark_overdue_tx 6000 calm (at lent)).1

marks : mark_overdue_tx 6000 calm (at lent) ≡ (ok tt, marked)
unfolding mark_overdue_tx mark_all_overdue mark_one_overdue update_borrow_status insert_audit
    enqueue_creator_notification enqueue_notification after query update_rows insert_unless new_uuid
    statement
marks = refl

mark_overdue_tx-leaves_none_example : count_where (is_overdue 6000) marked.db.borrows ≡ 0
mark_overdue_tx-leaves_none_example = mark_overdue_tx-leaves_none 6000 calm (at lent) marked marks

abbrev created : Session
created = (create_tx request "south" none "b9" 30 calm (at start)).1

creates : create_tx request "south" none "b9" 30 calm (at start) ≡ (ok tt, created)
unfolding create_tx ensure_active_actor requires_office ensure_office_exists lock_planning_office
    choose_covers settle_count capacity_snapshot select_eligible_cover_ids ensure_all_eligible
    ensure_cover_eligible insert_borrow reserve_all insert_audit office_name
    enqueue_lender_exec_notifications enqueue_all enqueue_notification decimal trim_space after
    query update_rows insert_unless new_uuid statement
creates = refl

create_tx-CreateDone_example : CreateDone request "south" none "b9" 30 start created.db
create_tx-CreateDone_example =
    create_tx-CreateDone request "south" none "b9" 30 calm (at start) created creates

abbrev rejected : Session
rejected =
    (simple_state_tx (rejection "b1" lender (some "no stock")) 30 calm
      (at (held BorrowStatus.requested))).1

rejects :
    simple_state_tx
      (rejection "b1" lender (some "no stock"))
      30
      calm
      (at (held BorrowStatus.requested))
    ≡ (ok tt, rejected)
unfolding simple_state_tx release_step tell_step is_valid_transition is_exec_of_office
    to_lower_ascii ensure_active_actor requires_office load_borrow_state lock_planning_office
    release_reservations update_borrow_status insert_audit enqueue_creator_notification
    enqueue_notification after query update_rows insert_unless new_uuid statement
rejects = refl

simple_state_tx-Moved_example :
    (r : BorrowRow) × (find_borrow "b1" (held BorrowStatus.requested).borrows ≡ some r)
    × IsActiveActor lender (held BorrowStatus.requested)
    × (is_exec_of_office lender r.lender_office_id ≡ true)
    × (r.status ≡ BorrowStatus.requested)
    × Moved r BorrowStatus.rejected (held BorrowStatus.requested) rejected.db
simple_state_tx-Moved_example =
    simple_state_tx-Moved (rejection "b1" lender (some "no stock")) 30 calm
      (at (held BorrowStatus.requested)) rejected (refl, refl) rejects

abbrev cancelled : Session
cancelled = (cancel_tx "b1" asker none 30 calm (at (held BorrowStatus.approved))).1

cancels : cancel_tx "b1" asker none 30 calm (at (held BorrowStatus.approved)) ≡ (ok tt, cancelled)
unfolding cancel_tx can_cancel ensure_active_actor requires_office load_borrow_state
    lock_planning_office release_reservations update_borrow_status insert_audit after query
    update_rows insert_unless new_uuid statement
cancels = refl

cancel_tx-Moved_example :
    (r : BorrowRow) × (find_borrow "b1" (held BorrowStatus.approved).borrows ≡ some r)
    × IsActiveActor asker (held BorrowStatus.approved)
    × (can_cancel r asker ≡ true)
    × ((r.status ≡ BorrowStatus.requested) ⊎ (r.status ≡ BorrowStatus.approved))
    × Moved r BorrowStatus.cancelled (held BorrowStatus.approved) cancelled.db
    × (cancelled.db.covers ≡ (held BorrowStatus.approved).covers)
cancel_tx-Moved_example =
    cancel_tx-Moved "b1" asker none 30 calm (at (held BorrowStatus.approved)) cancelled cancels

abbrev escalated : Session
escalated = (return_tx "b1" lender none 40 calm (at stuck)).1

escalates : return_tx "b1" lender none 40 calm (at stuck) ≡ (ok (some Error.conflict), escalated)
unfolding return_tx check_returnable finish_return mark_one_overdue ensure_active_actor
    can_support_or_lender_exec is_exec_of_office requires_office load_borrow_state
    lock_planning_office reservation_cover_ids lock_cover_state has_open_installation
    update_borrow_status insert_audit enqueue_creator_notification enqueue_notification after query
    update_rows insert_unless new_uuid statement
escalates = refl

return_tx-escalates_example :
    (Error.conflict ≡ Error.conflict)
    × ((r : BorrowRow) × (find_borrow "b1" stuck.borrows ≡ some r)
        × IsStuck stuck (ordered_cover_ids calm.before r.id false stuck)
        × ((o : BorrowRow) × (find_borrow r.id escalated.db.borrows ≡ some o)
            × (o.status ≡ BorrowStatus.overdue)
            × (escalated.db.covers ≡ stuck.covers)))
return_tx-escalates_example =
    return_tx-escalates "b1" lender none 40 calm (at stuck) escalated Error.conflict escalates

abbrev short : Db
short = record lent {
  work_orders =
      record {
        id = "w1";
        office_id = "south";
        kind = WorkOrderType.install;
        usage_type = UsageType.customer_cover;
        status = WorkOrderStatus.scheduled;
        customer_name = "Customer";
        request_number = none;
        customer_phone = none;
        note = none;
        gps_lat = none;
        gps_lng = none;
        install_date = some 50;
        removal_date = some 60;
        created_by_id = "asker";
        assigned_to_id = none;
        started_at = none;
        completed_at = none;
        created_at = 1;
        updated_at = 1;
        planned_qty = some 3;
      }
      ∷ [];
}

abbrev reported : Session
reported = (record_borrow_return_capacity_shortfall "south" "b1" 40 calm (at short)).1

BorrowPath-bounded_example :
    3 + moves_left BorrowStatus.returned ≤ moves_left BorrowStatus.requested
unfolding is_valid_transition
BorrowPath-bounded_example = BorrowPath-bounded {s = BorrowStatus.requested} (
    step {s = BorrowStatus.requested} {t = BorrowStatus.approved} refl (
      step {s = BorrowStatus.approved} {t = BorrowStatus.on_loan} refl
        (step {s = BorrowStatus.on_loan} refl (stay BorrowStatus.returned))))

abbrev shown : Borrow
shown = record {
  id = "b1";
  status = BorrowStatus.on_loan;
  borrower_office = record { id = "south"; name = "South"; work_hub_id = "hub" };
  lender_office = record { id = "north"; name = "North"; work_hub_id = "hub" };
  requested_qty = 2;
  covers =
      record {
        id = "c1";
        asset_code = "c1";
        status = CoverStatus.in_stock;
        owner_office_id = "north";
        current_office_id = "south";
      }
      ∷ record {
        id = "c2";
        asset_code = "c2";
        status = CoverStatus.in_stock;
        owner_office_id = "north";
        current_office_id = "south";
      }
      ∷ [];
  return_date = 5000;
  note = none;
  created_by_id = "asker";
  approved_by_id = none;
  activated_by_id = none;
  returned_by_id = none;
  created_at = 10;
  updated_at = 10;
  activated_at = none;
  returned_at = none;
}

abbrev read : Session
read = record (at lent) { statements = 3 }

reads : get_by_id "b1" asker calm (at lent) ≡ (ok shown, read)
unfolding get_by_id ensure_readable_actor validate_actor_claims is_valid requires_office
    ensure_active_actor actor_can_read find_by_id with_covers list_cover_summaries
    borrow_from_canonical_row trim_space after query statement
reads = refl

get_by_id-IsViewOf_example :
    IsActiveActor asker lent
    × (actor_can_read asker "south" "north" ≡ true)
    × MayRead asker "south" "north" lent
    × IsViewOf
        (trim_space "b1")
        lent
        (canonical_of lent (find_borrow (trim_space "b1") lent.borrows))
        (some shown)
    × (lent ≡ lent)
get_by_id-IsViewOf_example = get_by_id-IsViewOf "b1" asker calm (at lent) read shown reads

abbrev approved : Db
approved = held BorrowStatus.approved

cancel_tx-succeeds_example :
    (t : Session) × (cancel_tx "b1" asker none 30 calm (at approved) ≡ (ok tt, t))
    × (t.db ≡ after_cancel "b1" asker none 30 (b1 BorrowStatus.approved) (calm.uuid 50) approved)
unfolding can_cancel requires_office
cancel_tx-succeeds_example =
    cancel_tx-succeeds "b1" asker none 30 (b1 BorrowStatus.approved) calm (at approved) (λ n. refl)
      (
        record { id = "asker"; role = Role.tech; office_id = some "south"; is_active = true },
        refl,
        refl,
        refl,
        refl,
      )
      refl refl refl refl refl refl
