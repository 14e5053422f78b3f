-- ===== src/WorkOrder/Tests.antt =====
-- Runs of the work order service on the tables of one office: the witnesses of the theorems.
use scc_backend.Base.{
  ◌≤◌, ◌≡◌, refl, true, none, some, [], ◌∷◌, count_where, arith, rune_count, trim_space,
}
use scc_backend.Domain.Cover.{CoverStatus}
use scc_backend.Domain.Evidence.{is_valid_kind, is_identifier, path_clean, is_valid_object_key}
use scc_backend.Domain.WorkOrder.{WorkOrderStatus, UsageType, is_valid_transition}
use scc_backend.Store.{Db, WorkOrder}
use scc_backend.Effect.{
  after, statement, query, execute, update_rows, insert_unless, new_uuid, time_now, transaction,
}
use scc_backend.Borrow.Rows.{lock_planning_office}
use scc_backend.Borrow.Fixture.{calm, at}
use scc_backend.WorkOrder.Rows.{
  find_by_id_for_update, insert_work_order, update_work_order, update_scheduled_row,
  list_installations_for_update, has_active_installation_for_cover, find_cover_by_id_for_update,
  update_installation, mark_installed, is_draft_of,
}
use scc_backend.WorkOrder.Planning.{
  ensure_planned_qty_available, validate_assignment_target, create_assignment_notification,
  notify_assigned, insert_plain_notification, is_plan,
}
use scc_backend.WorkOrder.Desk.{
  UpdateParams, validate_given_target, create_work_order_tx, update_scheduled_tx,
  cancel_work_order_tx, release_drafts,
}
use scc_backend.WorkOrder.Field.{
  evidence_mutation_allowed, evidence_read_allowed, authorized_work_order, in_transaction,
}
use scc_backend.WorkOrder.Submit.{
  refuse_committed, check_stock, check_all_stock, require_evidence, commit_all, submit_install_tx,
  submit_install,
}
use scc_backend.WorkOrder.Removal.{require_removed, complete_removal_tx, complete_removal}
use scc_backend.WorkOrder.Fixture.{worker, job, scan, site, scanned}
use scc_backend.WorkOrder.Outcomes.Completion.{Completed, complete_removal-Completed}
use scc_backend.WorkOrder.Outcomes.Creation.{claims, stock, IsAssignable, create_work_order_tx-fits}
use scc_backend.WorkOrder.Outcomes.Cancellation.{Cancelled, cancel_work_order_tx-Cancelled}
use scc_backend.WorkOrder.Outcomes.Submission.{Submitted, submit_install-Submitted}
use scc_backend.WorkOrder.Outcomes.Updates.{Updated, update_scheduled_tx-Updated}
use scc_backend.WorkOrder.Evidence.{evidence_mutation_allowed-read}

abbrev removed : Db
removed = site WorkOrderStatus.removing CoverStatus.in_stock (scan (some 60) (some 70) ∷ [])

submit_install-Submitted_example :
    Submitted calm.is_uuid worker "w1" scanned (submit_install worker "w1" calm (at scanned)).1.db
unfolding submit_install submit_install_tx in_transaction authorized_work_order
    find_by_id_for_update evidence_mutation_allowed is_valid_transition lock_planning_office
    list_installations_for_update ensure_planned_qty_available refuse_committed check_all_stock
    check_stock find_cover_by_id_for_update has_active_installation_for_cover require_evidence
    is_valid_object_key is_valid_kind is_identifier path_clean rune_count commit_all
    update_installation mark_installed update_work_order after statement query execute update_rows
    time_now transaction
submit_install-Submitted_example =
    submit_install-Submitted worker "w1" calm (at scanned)
      (submit_install worker "w1" calm (at scanned)).1 refl

complete_removal-Completed_example :
    Completed calm.is_uuid worker "w1" removed (complete_removal worker "w1" calm (at removed)).1.db
unfolding complete_removal complete_removal_tx in_transaction authorized_work_order
    find_by_id_for_update evidence_mutation_allowed list_installations_for_update require_removed
    is_valid_object_key is_valid_kind is_identifier path_clean rune_count update_work_order after
    statement query execute time_now transaction trim_space
complete_removal-Completed_example =
    complete_removal-Completed worker "w1" calm (at removed)
      (complete_removal worker "w1" calm (at removed)).1 refl

abbrev empty_site : Db
empty_site = record scanned { work_orders = []; installations = [] }

create_work_order_tx-fits_example :
    (claims "north"
        (transaction
          (create_work_order_tx (job WorkOrderStatus.scheduled) 1)
          calm
          (at empty_site)).1.db
      ≤ stock "north"
          (transaction
            (create_work_order_tx (job WorkOrderStatus.scheduled) 1)
            calm
            (at empty_site)).1.db)
    × IsAssignable "north" (some "t1") empty_site
unfolding create_work_order_tx lock_planning_office ensure_planned_qty_available
    validate_given_target validate_assignment_target insert_work_order
    create_assignment_notification notify_assigned insert_plain_notification after statement query
    insert_unless new_uuid time_now transaction
create_work_order_tx-fits_example =
    create_work_order_tx-fits (job WorkOrderStatus.scheduled) 1 calm (at empty_site)
      (transaction (create_work_order_tx (job WorkOrderStatus.scheduled) 1) calm (at empty_site)).1
      refl (omega arith) refl

cancel_work_order_tx-Cancelled_example :
    (d : Cancelled "w1" scanned
      (transaction (cancel_work_order_tx "w1" "late") calm (at scanned)).1.db)
    × (count_where
          (is_draft_of d.work_order.id)
          (transaction (cancel_work_order_tx "w1" "late") calm (at scanned)).1.db.installations
        ≡ 0)
unfolding cancel_work_order_tx find_by_id_for_update is_valid_transition lock_planning_office
    release_drafts update_work_order after statement query execute time_now transaction
cancel_work_order_tx-Cancelled_example =
    cancel_work_order_tx-Cancelled "w1" "late" calm (at scanned)
      (transaction (cancel_work_order_tx "w1" "late") calm (at scanned)).1 refl

abbrev renaming : UpdateParams
renaming = record {
  customer_name = some "Other";
  request_number = none;
  customer_phone = none;
  note = none;
  gps_lat = none;
  gps_lng = none;
  planned_qty = none;
  install_date = none;
  removal_date = none;
  assigned_to_id = none;
}

abbrev renamed : WorkOrder
renamed = record (job WorkOrderStatus.scheduled) {
  customer_name = "Other";
  usage_type = UsageType.other "";
  updated_at = 1006;
}

update_scheduled_tx-Updated_example : Updated "w1" scanned renamed
unfolding update_scheduled_tx find_by_id_for_update is_plan lock_planning_office
    validate_given_target ensure_planned_qty_available update_scheduled_row after statement query
    execute time_now transaction
update_scheduled_tx-Updated_example =
    update_scheduled_tx-Updated "w1" renaming calm (at scanned)
      (transaction (update_scheduled_tx "w1" renaming) calm (at scanned)).1 renamed refl

abbrev active : Db
active = site WorkOrderStatus.active CoverStatus.installed (scan (some 60) none ∷ [])

evidence_mutation_allowed-read_example :
    evidence_read_allowed worker (job WorkOrderStatus.scheduled) ≡ true
unfolding evidence_mutation_allowed
evidence_mutation_allowed-read_example =
    evidence_mutation_allowed-read worker (job WorkOrderStatus.scheduled) refl
