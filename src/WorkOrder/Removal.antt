-- ===== src/WorkOrder/Removal.antt =====
-- workorder/service.go: StartRemoval, ScanRemove and CompleteRemoval.
use scc_backend.Base.{
  ℕ, String, Bool, not, ◌&&◌, ◌||◌, Option, none, some, List, [], ◌∷◌, str_eq, is_some, length,
  ◌==◌,
}
use scc_backend.Domain.Cover.{CoverStatus}
use scc_backend.Domain.Cover
use scc_backend.Domain.Evidence.{Kind}
use scc_backend.Domain.WorkOrder.{WorkOrderStatus, status_eq}
use scc_backend.Store.{Installation, Cover}
use scc_backend.Effect.{Error, Action, ◌>>=◌, ◌>>◌, pure, refuse_if, or_fail, time_now, ask}
use scc_backend.WorkOrder.Rows.{
  list_installations_for_update, find_installation_for_update, find_cover_by_code_for_update,
  update_installation, mark_in_stock, update_work_order, update_status_from,
}
use scc_backend.WorkOrder.Planning.{normalize_identifier}
use scc_backend.WorkOrder.Field.{EvidenceActor, authorized_work_order, in_transaction}
use scc_backend.WorkOrder.Submit.{is_evidence}

-- The body of the transaction of `startRemoval`.
unfoldable pub start_removal_tx : EvidenceActor → String → Action (Unit {0})
start_removal_tx actor id = do
  w ← authorized_work_order actor id
  refuse_if
      (not (status_eq w.status WorkOrderStatus.active)
        && not (status_eq w.status WorkOrderStatus.removal_due))
      Error.state_invalid
  now ← time_now
  update_status_from (record w { status = WorkOrderStatus.removing; updated_at = now })
      (WorkOrderStatus.active ∷ WorkOrderStatus.removal_due ∷ [])

-- `startRemoval`, `StartRemovalAs`
unfoldable pub start_removal : EvidenceActor → String → Action (Unit {0})
start_removal actor id = in_transaction (start_removal_tx actor id)

-- The removal of an installed cover.
unfoldable pub remove_cover : String → Installation → Cover → Action Cover
remove_cover office i scanned = do
  refuse_if (not (Cover.status_eq scanned.status CoverStatus.installed)) Error.conflict
  refuse_if (not (str_eq scanned.current_office_id office)) Error.conflict
  now ← time_now
  update_installation (record i { removed_at = some now })
  mark_in_stock scanned.id now
  pure (record scanned { status = CoverStatus.in_stock; updated_at = now })

-- A cover that is removed already is no error.
unfoldable pub remove_unless : Option ℕ → String → Installation → Cover → Action Cover
remove_unless (some at) office i scanned = pure scanned
remove_unless none office i scanned = remove_cover office i scanned

-- The body of the transaction of `scanRemove`.
unfoldable pub scan_remove_tx : EvidenceActor → String → String → Action Cover
scan_remove_tx actor id cover_code = do
  w ← authorized_work_order actor id
  refuse_if (not (status_eq w.status WorkOrderStatus.removing)) Error.state_invalid
  scanned ← find_cover_by_code_for_update cover_code
  found ← find_installation_for_update id scanned.id
  i ← or_fail found Error.conflict
  refuse_if (not (is_some i.installed_at)) Error.conflict
  remove_unless i.removed_at w.office_id i scanned

-- `scanRemove`, `ScanRemoveAs`
unfoldable pub scan_remove : EvidenceActor → String → String → Action Cover
scan_remove actor id cover_code = in_transaction (scan_remove_tx actor id cover_code)

abbrev pub has_remove_evidence : (String → Bool) → String → Installation → Bool
has_remove_evidence is_uuid work_order_id i =
    is_evidence is_uuid Kind.remove work_order_id i.cover_id i.photo_remove_url

-- The loop over the installations of a work order that is to be completed.
unfoldable pub require_removed : String → List Installation → Action (Unit {0})
require_removed work_order_id [] = pure tt
require_removed work_order_id (i ∷ rest) = do
  is_uuid ← ask (λ c. c.is_uuid)
  refuse_if (not (is_some i.installed_at) || not (is_some i.removed_at)) Error.state_invalid
  refuse_if (not (has_remove_evidence is_uuid work_order_id i)) Error.evidence_required
  require_removed work_order_id rest

-- The body of the transaction of `completeRemoval`.
unfoldable pub complete_removal_tx : EvidenceActor → String → Action (Unit {0})
complete_removal_tx actor id = do
  w ← authorized_work_order actor id
  refuse_if (not (status_eq w.status WorkOrderStatus.removing)) Error.state_invalid
  covers ← list_installations_for_update id
  refuse_if (length covers == 0) Error.state_invalid
  require_removed w.id covers
  now ← time_now
  update_work_order
      (record w { status = WorkOrderStatus.completed; completed_at = some now; updated_at = now })

-- `completeRemoval`, `CompleteRemovalAs`
unfoldable pub complete_removal : EvidenceActor → String → Action (Unit {0})
complete_removal actor id = do
  nfc ← ask (λ c. c.nfc)
  in_transaction (complete_removal_tx actor (normalize_identifier nfc id))
