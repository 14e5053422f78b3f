-- ===== src/WorkOrder/Rows.antt =====
-- The adapters at the end of workorder/service.go: the statements of the work order service.
use scc_backend.Base.{
  ℕ, String, Bool, false, not, ◌&&◌, ◌||◌, Option, none, some, List, [], ◌∷◌, str_eq, ◌==◌, ltb,
  is_some, count_where, take_where, select_where, update_where, delete_where, order_by,
  if◌then◌else◌,
}
use scc_backend.Domain.Cover.{CoverStatus}
use scc_backend.Domain.Cover
use scc_backend.Domain.WorkOrder.{WorkOrderStatus, UsageType, status_eq}
use scc_backend.Store.{WorkOrder, Installation, Cover}
use scc_backend.Effect.{
  Error, Action, ◌>>=◌, pure, refuse_if, query, execute, or_fail, update_rows, insert_unless,
  insert_or_ignore, ask,
}
use scc_backend.Borrow.Rows.{find_cover}

-- WHERE id = ?
abbrev pub find_work_order : String → List WorkOrder → Option WorkOrder
find_work_order id = take_where (λ w. str_eq w.id id)

-- The columns that FindByIDForUpdate reads: all but usage_type, which stays the empty text.
abbrev pub read_work_order : WorkOrder → WorkOrder
read_work_order w = record w { usage_type = UsageType.other "" }

abbrev pub read_found : Option WorkOrder → Option WorkOrder
read_found none = none
read_found (some w) = some (read_work_order w)

-- `FindByIDForUpdate` of work orders, and the ErrNotFound that every caller but the cron makes of
-- a missing row
unfoldable pub find_by_id_for_update : String → Action WorkOrder
find_by_id_for_update id = do
  found ← query (λ db. read_found (find_work_order id db.work_orders))
  or_fail found Error.not_found

-- `Create`
unfoldable pub insert_work_order : WorkOrder → Action (Unit {0})
insert_work_order w =
    insert_unless (λ db. ltb 0 (count_where (λ r. str_eq r.id w.id) db.work_orders))
      (λ db. record db { work_orders = w ∷ db.work_orders })

abbrev pub has_id : String → WorkOrder → Bool
has_id id w = str_eq w.id id

-- The columns that `Update` writes.
abbrev pub with_update : WorkOrder → WorkOrder → WorkOrder
with_update w r = record r {
  status = w.status;
  completed_at = w.completed_at;
  note = w.note;
  gps_lat = w.gps_lat;
  gps_lng = w.gps_lng;
  assigned_to_id = w.assigned_to_id;
  updated_at = w.updated_at;
}

-- `Update`
unfoldable pub update_work_order : WorkOrder → Action (Unit {0})
update_work_order w =
    execute
      (λ db. record db { work_orders = update_where (has_id w.id) (with_update w) db.work_orders })

abbrev pub is_scheduled : String → WorkOrder → Bool
is_scheduled id w = str_eq w.id id && status_eq w.status WorkOrderStatus.scheduled

-- The columns that `UpdateScheduled` writes.
abbrev pub with_plan : WorkOrder → WorkOrder → WorkOrder
with_plan w r = record r {
  customer_name = w.customer_name;
  request_number = w.request_number;
  customer_phone = w.customer_phone;
  note = w.note;
  gps_lat = w.gps_lat;
  gps_lng = w.gps_lng;
  planned_qty = w.planned_qty;
  install_date = w.install_date;
  removal_date = w.removal_date;
  assigned_to_id = w.assigned_to_id;
  updated_at = w.updated_at;
}

-- `UpdateScheduled` of the adapter
unfoldable pub update_scheduled_row : WorkOrder → Action (Unit {0})
update_scheduled_row w = execute (λ db. record db {
  work_orders = update_where (is_scheduled w.id) (with_plan w) db.work_orders;
})

-- The columns that `UpdateStarted` writes.
abbrev pub with_start : WorkOrder → WorkOrder → WorkOrder
with_start w r = record r {
  started_at = w.started_at;
  gps_lat = w.gps_lat;
  gps_lng = w.gps_lng;
  updated_at = w.updated_at;
}

-- `UpdateStarted`
unfoldable pub update_started : WorkOrder → Action (Unit {0})
update_started w = do
  affected ←
      update_rows (λ db. count_where (is_scheduled w.id) db.work_orders)
        (λ db. record db {
          work_orders = update_where (is_scheduled w.id) (with_start w) db.work_orders;
        })
  refuse_if (not (affected == 1)) Error.state_invalid

abbrev pub is_one_of : WorkOrderStatus → List WorkOrderStatus → Bool
is_one_of s [] = false
is_one_of s (x ∷ xs) = status_eq s x || is_one_of s xs

-- WHERE id = ? AND status IN ?
abbrev pub is_in_status : String → List WorkOrderStatus → WorkOrder → Bool
is_in_status id allowed_from w = str_eq w.id id && is_one_of w.status allowed_from

abbrev pub with_new_status : WorkOrder → WorkOrder → WorkOrder
with_new_status w r = record r { status = w.status; updated_at = w.updated_at }

-- `UpdateStatusFrom`
unfoldable pub update_status_from : WorkOrder → List WorkOrderStatus → Action (Unit {0})
update_status_from w allowed_from = do
  affected ←
      update_rows (λ db. count_where (is_in_status w.id allowed_from) db.work_orders)
        (λ db. record db {
          work_orders =
              update_where (is_in_status w.id allowed_from) (with_new_status w) db.work_orders;
        })
  refuse_if (not (affected == 1)) Error.state_invalid

abbrev pub is_of_work_order : String → Installation → Bool
is_of_work_order id i = str_eq i.work_order_id id

-- `ListInstallationsForUpdate`
unfoldable pub list_installations_for_update : String → Action (List Installation)
list_installations_for_update id = query (λ db. select_where (is_of_work_order id) db.installations)

abbrev pub is_pair : String → String → Installation → Bool
is_pair work_order_id cover_id i =
    str_eq i.work_order_id work_order_id && str_eq i.cover_id cover_id

-- `FindInstallationForUpdate`
unfoldable pub find_installation_for_update : String → String → Action (Option Installation)
find_installation_for_update work_order_id cover_id =
    query (λ db. take_where (is_pair work_order_id cover_id) db.installations)

abbrev pub has_installation_id : String → Installation → Bool
has_installation_id id i = str_eq i.id id

-- `AddInstallation`: the unique keys are the id, and the pair of work order and cover.
unfoldable pub add_installation : Installation → Action (Unit {0})
add_installation i = do
  inserted ←
      insert_or_ignore
        (λ db. ltb 0 (count_where (is_pair i.work_order_id i.cover_id) db.installations))
        (λ db. ltb 0 (count_where (has_installation_id i.id) db.installations))
        (λ db. record db { installations = i ∷ db.installations })
  if inserted == 1
      then pure tt
      else find_installation_for_update i.work_order_id i.cover_id >>= λ existing.
          refuse_if (not (is_some existing)) Error.conflict

-- The columns that `UpdateInstallation` writes.
abbrev pub with_installation : Installation → Installation → Installation
with_installation i r = record r {
  installed_at = i.installed_at;
  removed_at = i.removed_at;
  gps_lat = i.gps_lat;
  gps_lng = i.gps_lng;
  photo_install_url = i.photo_install_url;
  photo_remove_url = i.photo_remove_url;
}

-- `UpdateInstallation`
unfoldable pub update_installation : Installation → Action (Unit {0})
update_installation i = execute (λ db. record db {
  installations = update_where (has_installation_id i.id) (with_installation i) db.installations;
})

abbrev pub is_draft_pair : String → String → Installation → Bool
is_draft_pair work_order_id cover_id i =
    is_pair work_order_id cover_id i && not (is_some i.installed_at)

-- `RemoveDraftInstallation`
unfoldable pub remove_draft_installation : String → String → Action (Unit {0})
remove_draft_installation work_order_id cover_id = execute (λ db. record db {
  installations = delete_where (is_draft_pair work_order_id cover_id) db.installations;
})

abbrev pub is_draft_of : String → Installation → Bool
is_draft_of work_order_id i = str_eq i.work_order_id work_order_id && not (is_some i.installed_at)

-- cover_id = ? AND installed_at IS NOT NULL AND removed_at IS NULL
abbrev pub is_live : String → Installation → Bool
is_live cover_id i =
    str_eq i.cover_id cover_id && is_some i.installed_at && not (is_some i.removed_at)

-- `HasActiveInstallationForCover`
unfoldable pub has_active_installation_for_cover : String → String → Action Bool
has_active_installation_for_cover cover_id exclude_id = query (λ db. ltb 0 (
    count_where (λ i. is_live cover_id i && (str_eq exclude_id "" || not (str_eq i.id exclude_id)))
      db.installations))

-- `FindByIDForUpdate` of covers, and the conflict that its callers make of a missing row
unfoldable pub find_cover_by_id_for_update : String → Action Cover
find_cover_by_id_for_update id = do
  found ← query (λ db. find_cover id db.covers)
  or_fail found Error.conflict

abbrev pub is_code : String → Option String → Bool
is_code code none = false
is_code code (some n) = str_eq n code

-- WHERE asset_code = ? OR qr_code = ? OR nfc_id = ?
abbrev pub has_code : String → Cover → Bool
has_code code c = str_eq c.asset_code code || str_eq c.qr_code code || is_code code c.nfc_id

abbrev pub first : List Cover → Option Cover
first [] = none
first (c ∷ cs) = some c

-- The columns that FindByCodeForUpdate reads.
abbrev pub read_cover : Cover → Cover
read_cover c = record c { asset_code = ""; qr_code = ""; nfc_id = none; updated_at = 0 }

abbrev pub read_found_cover : Option Cover → Option Cover
read_found_cover none = none
read_found_cover (some c) = some (read_cover c)

-- `FindByCodeForUpdate`, the row with the least id, and the conflict that its callers make of a
-- missing one
unfoldable pub find_cover_by_code_for_update : String → Action Cover
find_cover_by_code_for_update code = do
  before ← ask (λ c. c.before)
  found ← query (λ db.
      read_found_cover
        (first (order_by (λ a b. before a.id b.id) (select_where (has_code code) db.covers))))
  or_fail found Error.conflict

abbrev pub is_cover_in : String → CoverStatus → Cover → Bool
is_cover_in id status c = str_eq c.id id && Cover.status_eq c.status status

abbrev pub with_cover_status : CoverStatus → ℕ → Cover → Cover
with_cover_status status now c = record c { status = status; updated_at = now }

abbrev pub set_cover_status : String → CoverStatus → CoverStatus → ℕ → Action (Unit {0})
set_cover_status id from to now = do
  affected ←
      update_rows (λ db. count_where (is_cover_in id from) db.covers)
        (λ db. record db {
          covers = update_where (is_cover_in id from) (with_cover_status to now) db.covers;
        })
  refuse_if (not (affected == 1)) Error.conflict

-- `MarkInstalled`
unfoldable pub mark_installed : String → ℕ → Action (Unit {0})
mark_installed id = set_cover_status id CoverStatus.in_stock CoverStatus.installed

-- `MarkInStock`
unfoldable pub mark_in_stock : String → ℕ → Action (Unit {0})
mark_in_stock id = set_cover_status id CoverStatus.installed CoverStatus.in_stock
