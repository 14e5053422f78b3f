-- ===== src/WorkOrder/Submit.antt =====
-- workorder/service.go: SubmitInstall takes the scanned covers of a work order out of stock.
use scc_backend.Base.{
  ℕ, String, Bool, false, not, ◌||◌, Option, none, some, List, [], ◌∷◌, str_eq, is_some, ltb,
  length, order_by, text_before, ◌==◌,
}
use scc_backend.Domain.Cover.{CoverStatus}
use scc_backend.Domain.Cover
use scc_backend.Domain.Evidence.{Kind, is_valid_object_key}
use scc_backend.Domain.WorkOrder.{WorkOrderStatus, is_valid_transition}
use scc_backend.Store.{WorkOrder, Installation}
use scc_backend.Effect.{Error, Action, ◌>>=◌, ◌>>◌, pure, refuse_if, query, time_now, ask}
use scc_backend.Borrow.Rows.{lock_planning_office}
use scc_backend.Borrow.Capacity.{active_reservations}
use scc_backend.WorkOrder.Rows.{
  list_installations_for_update, has_active_installation_for_cover, find_cover_by_id_for_update,
  update_installation, mark_installed, update_work_order,
}
use scc_backend.WorkOrder.Planning.{ensure_planned_qty_available}
use scc_backend.WorkOrder.Field.{EvidenceActor, authorized_work_order, in_transaction}

-- A key of the map `installationsByCover`.
abbrev pub is_listed : String → List String → Bool
is_listed cover_id [] = false
is_listed cover_id (x ∷ xs) = str_eq x cover_id || is_listed cover_id xs

-- The loop that refuses committed drafts and covers scanned twice; the list is that of the covers
-- that it has met.
unfoldable pub refuse_committed : List String → List Installation → Action (Unit {0})
refuse_committed seen [] = pure tt
refuse_committed seen (i ∷ rest) = do
  refuse_if (is_some i.installed_at) Error.conflict
  refuse_if (is_listed i.cover_id seen) Error.conflict
  refuse_committed (i.cover_id ∷ seen) rest

-- The installations in the order of their covers: `sort.Strings(coverIDs)`
abbrev pub by_cover : List Installation → List Installation
by_cover = order_by (λ a b. text_before a.cover_id b.cover_id)

-- The checks of one cover of the submission.
unfoldable pub check_stock : String → Installation → Action (Unit {0})
check_stock office i = do
  cover ← find_cover_by_id_for_update i.cover_id
  refuse_if (not (Cover.status_eq cover.status CoverStatus.in_stock)) Error.conflict
  refuse_if (not (str_eq cover.current_office_id office)) Error.conflict
  is_busy ← has_active_installation_for_cover i.cover_id i.id
  refuse_if is_busy Error.conflict
  reserved ← query (λ db. active_reservations i.cover_id db.borrow_covers)
  refuse_if (ltb 0 reserved) Error.conflict

unfoldable pub check_all_stock : String → List Installation → Action (Unit {0})
check_all_stock office [] = pure tt
check_all_stock office (i ∷ rest) = check_stock office i >> check_all_stock office rest

-- A photo key is there, and it is one of this work order and this cover.
abbrev pub is_evidence : (String → Bool) → Kind → String → String → Option String → Bool
is_evidence is_uuid kind work_order_id cover_id none = false
is_evidence is_uuid kind work_order_id cover_id (some key) =
    is_valid_object_key is_uuid key kind work_order_id cover_id

abbrev pub has_install_evidence : (String → Bool) → String → Installation → Bool
has_install_evidence is_uuid work_order_id i =
    is_evidence is_uuid Kind.install work_order_id i.cover_id i.photo_install_url

unfoldable pub require_evidence : String → List Installation → Action (Unit {0})
require_evidence work_order_id [] = pure tt
require_evidence work_order_id (i ∷ rest) = do
  is_uuid ← ask (λ c. c.is_uuid)
  refuse_if (not (has_install_evidence is_uuid work_order_id i)) Error.evidence_required
  require_evidence work_order_id rest

abbrev pub committed : WorkOrder → ℕ → Installation → Installation
committed w now i = record i { installed_at = some now; gps_lat = w.gps_lat; gps_lng = w.gps_lng }

-- The loop that commits the drafts and marks their covers installed.
unfoldable pub commit_all : WorkOrder → ℕ → List Installation → Action (Unit {0})
commit_all w now [] = pure tt
commit_all w now (i ∷ rest) = do
  update_installation (committed w now i)
  mark_installed i.cover_id now
  commit_all w now rest

-- The body of the transaction of `submitInstall`.
unfoldable pub submit_install_tx : EvidenceActor → String → Action (Unit {0})
submit_install_tx actor id = do
  w ← authorized_work_order actor id
  refuse_if (not (is_valid_transition w.status WorkOrderStatus.active)) Error.state_invalid
  lock_planning_office w.office_id
  drafts ← list_installations_for_update id
  refuse_if (length drafts == 0) Error.state_invalid
  ensure_planned_qty_available w.office_id (length drafts) (some id)
  refuse_committed [] drafts
  check_all_stock w.office_id (by_cover drafts)
  require_evidence w.id (by_cover drafts)
  now ← time_now
  commit_all w now (by_cover drafts)
  update_work_order (record w { status = WorkOrderStatus.active; updated_at = now })

-- `submitInstall`, `SubmitInstallAs`
unfoldable pub submit_install : EvidenceActor → String → Action (Unit {0})
submit_install actor id = in_transaction (submit_install_tx actor id)
