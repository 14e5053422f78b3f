-- ===== src/WorkOrder/Cron.antt =====
-- workorder/cron.go: the check that moves active work orders to REMOVAL_DUE and tells the people
-- concerned.
use scc_backend.Base.{
  ℕ, String, Bool, false, not, ◌&&◌, ◌||◌, Option, none, some, List, [], ◌∷◌, ◌++◌, map, str_eq,
  ltb, select_where, order_by, text_before, cat_all, if◌then◌else◌,
}
use scc_backend.Domain.Role.{Role, role_eq}
use scc_backend.Domain.WorkOrder.{WorkOrderStatus, status_eq}
use scc_backend.Store.{Db, User, WorkOrder, Notification}
use scc_backend.Effect.{
  Error, Result, Action, ok, err, Session, ◌>>=◌, ◌>>◌, pure, refuse_if, query, new_uuid, time_now,
  transaction, ask,
}
use scc_backend.Borrow.Events.{is_in, create_notification}
use scc_backend.WorkOrder.Rows.{find_work_order, read_found, update_status_from}
use scc_backend.WorkOrder.Planning.{is_technician_of}

-- status = 'ACTIVE' AND removal_date <= now
abbrev pub is_past : ℕ → Option ℕ → Bool
is_past now none = false
is_past now (some at) = not (ltb now at)

abbrev pub is_due : ℕ → WorkOrder → Bool
is_due now w = status_eq w.status WorkOrderStatus.active && is_past now w.removal_date

abbrev pub is_exec_of : String → User → Bool
is_exec_of office u = is_in office u.office_id && role_eq u.role Role.exec && u.is_active

abbrev pub is_among : String → List String → Bool
is_among id [] = false
is_among id (x ∷ xs) = str_eq x id || is_among id xs

-- The texts of a list as the keys of a map: each once.
abbrev pub distinct : List String → List String
distinct [] = []
distinct (x ∷ xs) = if is_among x (distinct xs) then distinct xs else x ∷ distinct xs

abbrev pub ids_where : (User → Bool) → Db → List String
ids_where p db = map (λ u. u.id) (select_where p db.users)

-- The query for the assigned technician, where there is one.
unfoldable pub assigned_technician : Option String → String → Action (List String)
assigned_technician none office = pure []
assigned_technician (some id) office =
    if str_eq id ""
    then pure []
    else query (ids_where (λ u. str_eq u.id id && is_technician_of office u))

-- `removalDueRecipients`
unfoldable pub removal_due_recipients : WorkOrder → Action (List String)
removal_due_recipients w = do
  assigned ← assigned_technician w.assigned_to_id w.office_id
  executives ← query (ids_where (is_exec_of w.office_id))
  pure (order_by text_before (distinct (assigned ++ executives)))

abbrev pub due_key : String → String → String
due_key work_order_id user_id =
    cat_all ("workorder:" ∷ work_order_id ∷ ":removal-due:" ∷ user_id ∷ [])

abbrev pub due_notification : String → String → String → ℕ → Notification
due_notification id work_order_id user_id now = record {
  id = id;
  user_id = user_id;
  kind = "REMOVAL_DUE";
  message = cat_all ("ใบงาน " ∷ work_order_id ∷ " ถึงกำหนดถอดฉนวน" ∷ []);
  work_order_id = some work_order_id;
  borrow_id = none;
  discrepancy_id = none;
  dedup_key = some (due_key work_order_id user_id);
  created_at = now;
}

unfoldable pub notify_due : String → ℕ → List String → Action (Unit {0})
notify_due work_order_id now [] = pure tt
notify_due work_order_id now (user_id ∷ rest) = do
  id ← new_uuid
  create_notification (due_notification id work_order_id user_id now)
      (due_key work_order_id user_id)
  notify_due work_order_id now rest

-- The notifications, which need a repository where there is anyone to tell.
unfoldable pub notify_recipients : String → ℕ → List String → Action (Unit {0})
notify_recipients work_order_id now [] = pure tt
notify_recipients work_order_id now (user_id ∷ rest) = do
  has_notif_repo ← ask (λ c. c.has_notif_repo)
  refuse_if (not has_notif_repo) Error.internal
  notify_due work_order_id now (user_id ∷ rest)

unfoldable pub mark_due : WorkOrder → Action (Unit {0})
mark_due w = do
  recipients ← removal_due_recipients w
  now ← time_now
  update_status_from (record w { status = WorkOrderStatus.removal_due; updated_at = now })
      (WorkOrderStatus.active ∷ [])
  notify_recipients w.id now recipients

-- A work order that is gone, not active or not due any more is left alone.
unfoldable pub mark_if_due : ℕ → Option WorkOrder → Action (Unit {0})
mark_if_due now none = pure tt
mark_if_due now (some w) = if is_due now w then mark_due w else pure tt

-- The body of the transaction of `markRemovalDue`.
unfoldable pub mark_removal_due_tx : String → Action (Unit {0})
mark_removal_due_tx id = do
  found ← query (λ db. read_found (find_work_order id db.work_orders))
  now ← time_now
  mark_if_due now found

-- `markRemovalDue`
unfoldable pub mark_removal_due : String → Action (Unit {0})
mark_removal_due id = transaction (mark_removal_due_tx id)

-- The errors of the loop are joined: the first stands for them.
abbrev pub join : Result (Unit {0}) → Result (Unit {0}) × Session → Result (Unit {0}) × Session
join (ok a) (r, s) = (r, s)
join (err e) (r, s) = (err e, s)

unfoldable pub mark_one : String → Action (Unit {0})
mark_one id = if str_eq id "" then pure tt else mark_removal_due id

-- The loop of `CheckRemovalDue`: each work order in a transaction of its own.
unfoldable pub mark_each : List String → Action (Unit {0})
mark_each [] c s = (ok tt, s)
mark_each (id ∷ rest) c s =
    let marked = mark_one id c s in join marked.0 (mark_each rest c marked.1)

-- `CheckRemovalDue`
unfoldable pub check_removal_due : Action (Unit {0})
check_removal_due = do
  is_configured ← ask (λ c. c.has_db && c.has_repo)
  refuse_if (not is_configured) Error.not_configured
  now ← time_now
  ids ← query (λ db. map (λ w. w.id) (select_where (is_due now) db.work_orders))
  mark_each ids
