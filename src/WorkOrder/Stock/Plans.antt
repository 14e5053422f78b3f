-- ===== src/WorkOrder/Stock/Plans.antt =====
-- The calls that leave covers, installations and reservations alone, but for the drafts that Cancel
-- deletes, against the invariant of the stock.
use scc_backend.Base.{
  ℕ, refl, String, Bool, true, false, Option, none, some, List, [], ◌∷◌, Bool-cases, inl, inr,
  arith, if◌then◌else◌,
}
use scc_backend.Domain.WorkOrder.{WorkOrderStatus}
use scc_backend.Store.{Db, WorkOrder, Installation, Notification, Coordinate}
use scc_backend.Effect.{Action, Session, Result, ok, err, update_rows}
use scc_backend.Effect.Ensures.{On, value, error}
use scc_backend.Effect.Keeps.{
  Keeps, bind-Keeps, statement-Keeps, query-Keeps, execute-Keeps, insert_unless-Keeps,
  or_fail-Keeps, transaction-Keeps, new_uuid-Keeps, time_now-Keeps,
}
use scc_backend.Borrow.Rows.{lock_planning_office}
use scc_backend.WorkOrder.Rows.{
  find_by_id_for_update, insert_work_order, update_work_order, update_scheduled_row, update_started,
  update_status_from, is_draft_of, list_installations_for_update,
}
use scc_backend.WorkOrder.Planning.{
  ensure_planned_qty_available, validate_assignment_target, insert_plain_notification,
  notify_assigned, create_assignment_notification,
}
use scc_backend.WorkOrder.Desk.{
  validate_given_target, create_work_order_tx, create_work_order, CreateParams, UpdateParams,
  update_scheduled_tx, update_scheduled, assign_step, assign_tx, assign, release_drafts,
  cancel_work_order_tx, cancel_work_order,
}
use scc_backend.WorkOrder.Field.{EvidenceActor, authorized_work_order, start_tx, start}
use scc_backend.WorkOrder.Removal.{
  start_removal_tx, start_removal, require_removed, complete_removal_tx, complete_removal,
}
use scc_backend.WorkOrder.Stock.{IsSound, SameStock-IsSound}
use scc_backend.WorkOrder.Stock.Steps.{delete-IsSound}
use scc_backend.WorkOrder.Stock.Scans.{Preserves, in_transaction-Keeps}

-- Of an action that keeps the stock sound, a successful run does.
pub Keeps-Preserves : {A : Type 0} (m : Action A) → Keeps IsSound m → Preserves m
Keeps-Preserves {A} m k c s h = succeeded (m c s) (k c s h)
  where
    succeeded : (r : Result A × Session) → IsSound r.1.db → On (λ _ t. IsSound t.db) r
    succeeded (ok a, t) p = value p
    succeeded (err e, t) p = error

-- A write to other tables.
work_orders_IsSound :
    (rows : Db → List WorkOrder) (db : Db)
    → IsSound db
    → IsSound (record db { work_orders = rows db })
work_orders_IsSound rows db =
    SameStock-IsSound (record { covers = refl; installations = refl; borrow_covers = refl })

pub notifications_IsSound :
    (rows : Db → List Notification) (db : Db)
    → IsSound db
    → IsSound (record db { notifications = rows db })
notifications_IsSound rows db =
    SameStock-IsSound (record { covers = refl; installations = refl; borrow_covers = refl })

pub cond-Keeps :
    {A : Type 0} (b : Bool) (m n : Action A)
    → Keeps IsSound m
    → Keeps IsSound n
    → Keeps IsSound (if b then m else n)
cond-Keeps true m n h k = h
cond-Keeps false m n h k = k

pub lock-Keeps : (office : String) → Keeps IsSound (lock_planning_office office)
unfolding lock_planning_office
lock-Keeps office c s p = elim (Bool-cases c.is_postgres) [
  | inl e ↦ simp e (statement-Keeps IsSound c s p)
  | inr e ↦ simp e p
]

pub find-Keeps : (id : String) → Keeps IsSound (find_by_id_for_update id)
unfolding find_by_id_for_update
find-Keeps id =
    bind-Keeps IsSound _ _ (query-Keeps IsSound _) λ found. or_fail-Keeps IsSound found _

pub authorized-Keeps :
    (actor : EvidenceActor) (id : String) → Keeps IsSound (authorized_work_order actor id)
unfolding authorized_work_order
authorized-Keeps actor id =
    bind-Keeps IsSound _ _ (find-Keeps id) λ w. bind-Keeps IsSound _ _ (λ c s p. p) λ _ c s p. p

pub update_rows-Keeps :
    (affected : Db → ℕ) (f : Db → Db)
    → ((db : Db) → IsSound db → IsSound (f db))
    → Keeps IsSound (update_rows affected f)
unfolding update_rows
update_rows-Keeps affected f h =
    bind-Keeps IsSound _ _ (statement-Keeps IsSound) λ _ c s p. h s.db p

pub update_status_from-Keeps :
    (w : WorkOrder) (allowed_from : List WorkOrderStatus)
    → Keeps IsSound (update_status_from w allowed_from)
unfolding update_status_from
update_status_from-Keeps w allowed_from =
    bind-Keeps IsSound _ _ (update_rows-Keeps _ _ (work_orders_IsSound _)) λ n c s p. p

update_work_order-Keeps : (w : WorkOrder) → Keeps IsSound (update_work_order w)
unfolding update_work_order
update_work_order-Keeps w = execute-Keeps IsSound _ (work_orders_IsSound _)

ensure-Keeps :
    (office : String) (n : ℕ) (excluded : Option String)
    → Keeps IsSound (ensure_planned_qty_available office n excluded)
unfolding ensure_planned_qty_available
ensure-Keeps office n excluded = bind-Keeps IsSound _ _ (query-Keeps IsSound _) λ a.
    bind-Keeps IsSound _ _ (query-Keeps IsSound _)
      λ b. bind-Keeps IsSound _ _ (query-Keeps IsSound _) λ d c s p. p

target-Keeps : (office user_id : String) → Keeps IsSound (validate_assignment_target office user_id)
unfolding validate_assignment_target
target-Keeps office user_id =
    bind-Keeps IsSound _ _ (query-Keeps IsSound _)
      λ found. bind-Keeps IsSound _ _ (or_fail-Keeps IsSound found _) λ u c s p. p

given_target-Keeps :
    (office : String) (user_id : Option String)
    → Keeps IsSound (validate_given_target office user_id)
unfolding validate_given_target
given_target-Keeps office none = λ c s p. p
given_target-Keeps office (some user_id) = target-Keeps office user_id

assignment-Keeps :
    (id : String) (user_id : Option String)
    → Keeps IsSound (create_assignment_notification id user_id)
unfolding create_assignment_notification notify_assigned insert_plain_notification
assignment-Keeps id none = λ c s p. p
assignment-Keeps id (some user_id) =
    bind-Keeps IsSound _ _ (λ c s p. p)
      λ has_repo.
        cond-Keeps has_repo _ _
          (bind-Keeps IsSound _ _ (new_uuid-Keeps IsSound) λ n.
            bind-Keeps IsSound _ _ (time_now-Keeps IsSound)
              λ now. insert_unless-Keeps IsSound _ _ (notifications_IsSound _))
          (λ c s p. p)

create_tx-Keeps : (w : WorkOrder) (n : ℕ) → Keeps IsSound (create_work_order_tx w n)
unfolding create_work_order_tx insert_work_order
create_tx-Keeps w n = bind-Keeps IsSound _ _ (lock-Keeps w.office_id) λ _.
    bind-Keeps IsSound _ _ (ensure-Keeps w.office_id n none) λ _.
      bind-Keeps IsSound _ _ (given_target-Keeps w.office_id w.assigned_to_id) λ _.
        bind-Keeps IsSound _ _ (insert_unless-Keeps IsSound _ _ (work_orders_IsSound _))
          λ _. cond-Keeps _ _ _ (λ c s p. p) (assignment-Keeps w.id w.assigned_to_id)

-- `Create` keeps the stock sound, whatever it returns.
pub create_work_order-IsSound : (p : CreateParams) → Keeps IsSound (create_work_order p)
unfolding create_work_order
create_work_order-IsSound p =
    bind-Keeps IsSound _ _ (λ c s h. h)
      λ nfc.
        bind-Keeps IsSound _ _ (λ c s h. h)
          λ _.
            bind-Keeps IsSound _ _ (λ c s h. h)
              λ _.
                bind-Keeps IsSound _ _ (λ c s h. h)
                  λ _.
                    bind-Keeps IsSound _ _ (λ c s h. h)
                      λ _.
                        bind-Keeps IsSound _ _ (λ c s h. h)
                          λ b.
                            bind-Keeps IsSound _ _ (λ c s h. h)
                              λ _. bind-Keeps IsSound _ _ (time_now-Keeps IsSound) λ now.
                                bind-Keeps IsSound _ _ (new_uuid-Keeps IsSound) λ id.
                                  bind-Keeps IsSound _ _
                                    (transaction-Keeps IsSound _
                                      (Keeps-Preserves _ (create_tx-Keeps _ _)))
                                    λ _ c s h. h

update_scheduled_tx-Keeps :
    (id : String) (p : UpdateParams) → Keeps IsSound (update_scheduled_tx id p)
unfolding update_scheduled_tx update_scheduled_row
update_scheduled_tx-Keeps id p = bind-Keeps IsSound _ _ (find-Keeps id) λ found.
    bind-Keeps IsSound _ _ (λ c s h. h)
      λ _.
        bind-Keeps IsSound _ _ (λ c s h. h)
          λ _.
            bind-Keeps IsSound _ _ (λ c s h. h)
              λ _. bind-Keeps IsSound _ _ (lock-Keeps _) λ _.
                bind-Keeps IsSound _ _ (given_target-Keeps _ _) λ _.
                  bind-Keeps IsSound _ _ (ensure-Keeps _ _ _) λ _.
                    bind-Keeps IsSound _ _ (time_now-Keeps IsSound) λ now.
                      bind-Keeps IsSound _ _ (execute-Keeps IsSound _ (work_orders_IsSound _)) λ _.
                        bind-Keeps IsSound _ _
                          (cond-Keeps _ _ _ (assignment-Keeps _ _) (λ c s h. h)) λ _ c s h. h

-- `UpdateScheduled` keeps the stock sound, whatever it returns.
pub update_scheduled-IsSound :
    (id : String) (p : UpdateParams) → Keeps IsSound (update_scheduled id p)
unfolding update_scheduled
update_scheduled-IsSound id p =
    bind-Keeps IsSound _ _ (λ c s h. h)
      λ b.
        bind-Keeps IsSound _ _ (λ c s h. h)
          λ _.
            bind-Keeps IsSound _ _ (λ c s h. h)
              λ nfc.
                bind-Keeps IsSound _ _ (λ c s h. h)
                  λ _.
                    transaction-Keeps IsSound _ (Keeps-Preserves _ (update_scheduled_tx-Keeps _ _))

assign_tx-Keeps : (id user_id : String) → Keeps IsSound (assign_tx id user_id)
unfolding assign_tx assign_step
assign_tx-Keeps id user_id = bind-Keeps IsSound _ _ (find-Keeps id) λ found.
    bind-Keeps IsSound _ _ (λ c s h. h)
      λ _. bind-Keeps IsSound _ _ (target-Keeps _ _) λ _.
        cond-Keeps _ _ _ (λ c s h. h)
          (bind-Keeps IsSound _ _ (time_now-Keeps IsSound)
            λ now. bind-Keeps IsSound _ _ (update_work_order-Keeps _) λ _. assignment-Keeps _ _)

-- `Assign` keeps the stock sound, whatever it returns.
pub assign-IsSound : (id user_id : String) → Keeps IsSound (assign id user_id)
unfolding assign
assign-IsSound id user_id =
    bind-Keeps IsSound _ _ (λ c s h. h)
      λ b.
        bind-Keeps IsSound _ _ (λ c s h. h)
          λ _.
            bind-Keeps IsSound _ _ (λ c s h. h)
              λ nfc.
                bind-Keeps IsSound _ _ (λ c s h. h)
                  λ _. transaction-Keeps IsSound _ (Keeps-Preserves _ (assign_tx-Keeps _ _))

cancel_tx-Keeps : (id reason : String) → Keeps IsSound (cancel_work_order_tx id reason)
unfolding cancel_work_order_tx release_drafts
cancel_tx-Keeps id reason = bind-Keeps IsSound _ _ (find-Keeps id) λ found.
    bind-Keeps IsSound _ _ (λ c s h. h)
      λ _. bind-Keeps IsSound _ _ (lock-Keeps _) λ _.
        bind-Keeps IsSound _ _
          (execute-Keeps IsSound _
            (λ db. delete-IsSound (is_draft_of found.id) db (λ i e. ground (arith, e))))
          λ _. bind-Keeps IsSound _ _ (time_now-Keeps IsSound) λ now. update_work_order-Keeps _

-- `Cancel` keeps the stock sound, whatever it returns.
pub cancel_work_order-IsSound : (id reason : String) → Keeps IsSound (cancel_work_order id reason)
unfolding cancel_work_order
cancel_work_order-IsSound id reason =
    bind-Keeps IsSound _ _ (λ c s h. h)
      λ b.
        bind-Keeps IsSound _ _ (λ c s h. h)
          λ _.
            bind-Keeps IsSound _ _ (λ c s h. h)
              λ nfc. transaction-Keeps IsSound _ (Keeps-Preserves _ (cancel_tx-Keeps _ _))

start_tx-Keeps :
    (actor : EvidenceActor) (id : String) (lat lng : Option Coordinate)
    → Keeps IsSound (start_tx actor id lat lng)
unfolding start_tx update_started
start_tx-Keeps actor id lat lng = bind-Keeps IsSound _ _ (authorized-Keeps actor id) λ w.
    bind-Keeps IsSound _ _ (λ c s h. h)
      λ _.
        bind-Keeps IsSound _ _ (time_now-Keeps IsSound)
          λ now. bind-Keeps IsSound _ _ (update_rows-Keeps _ _ (work_orders_IsSound _)) λ n c s h. h

-- `start` keeps the stock sound, whatever it returns.
pub start-IsSound :
    (actor : EvidenceActor) (id : String) (lat lng : Option Coordinate)
    → Keeps IsSound (start actor id lat lng)
unfolding start
start-IsSound actor id lat lng =
    bind-Keeps IsSound _ _ (λ c s h. h)
      λ nfc. in_transaction-Keeps _ (Keeps-Preserves _ (start_tx-Keeps actor _ lat lng))

start_removal_tx-Keeps :
    (actor : EvidenceActor) (id : String) → Keeps IsSound (start_removal_tx actor id)
unfolding start_removal_tx
start_removal_tx-Keeps actor id = bind-Keeps IsSound _ _ (authorized-Keeps actor id) λ w.
    bind-Keeps IsSound _ _ (λ c s h. h)
      λ _. bind-Keeps IsSound _ _ (time_now-Keeps IsSound) λ now. update_status_from-Keeps _ _

-- `startRemoval` keeps the stock sound, whatever it returns.
pub start_removal-IsSound :
    (actor : EvidenceActor) (id : String) → Keeps IsSound (start_removal actor id)
unfolding start_removal
start_removal-IsSound actor id =
    in_transaction-Keeps _ (Keeps-Preserves _ (start_removal_tx-Keeps actor id))

require_removed-Keeps :
    (id : String) (rows : List Installation) → Keeps IsSound (require_removed id rows)
unfolding require_removed
require_removed-Keeps id [] = λ c s h. h
require_removed-Keeps id (i ∷ rows) =
    bind-Keeps IsSound _ _ (λ c s h. h)
      λ f.
        bind-Keeps IsSound _ _ (λ c s h. h)
          λ _. bind-Keeps IsSound _ _ (λ c s h. h) λ _. require_removed-Keeps id rows

complete_removal_tx-Keeps :
    (actor : EvidenceActor) (id : String) → Keeps IsSound (complete_removal_tx actor id)
unfolding complete_removal_tx list_installations_for_update
complete_removal_tx-Keeps actor id = bind-Keeps IsSound _ _ (authorized-Keeps actor id) λ w.
    bind-Keeps IsSound _ _ (λ c s h. h)
      λ _. bind-Keeps IsSound _ _ (query-Keeps IsSound _) λ rows.
        bind-Keeps IsSound _ _ (λ c s h. h)
          λ _.
            bind-Keeps IsSound _ _ (require_removed-Keeps _ rows)
              λ _. bind-Keeps IsSound _ _ (time_now-Keeps IsSound) λ now. update_work_order-Keeps _

-- `completeRemoval` keeps the stock sound, whatever it returns.
pub complete_removal-IsSound :
    (actor : EvidenceActor) (id : String) → Keeps IsSound (complete_removal actor id)
unfolding complete_removal
complete_removal-IsSound actor id =
    bind-Keeps IsSound _ _ (λ c s h. h)
      λ nfc. in_transaction-Keeps _ (Keeps-Preserves _ (complete_removal_tx-Keeps actor _))
