-- ===== src/WorkOrder/Outcomes/Dues.antt =====
-- What the removal-due check does to one work order.
use scc_backend.Base.{ℕ, ◌≡◌, ◌⊎◌, String, true, false, none, some, [], ◌∷◌, count_where, Grown}
use scc_backend.Domain.WorkOrder.{WorkOrderStatus}
use scc_backend.Store.{Db, WorkOrder}
use scc_backend.Effect.{Env, after}
use scc_backend.WorkOrder.Rows.{find_work_order, read_found, is_in_status}
use scc_backend.WorkOrder.Effects.{after_new_status}
use scc_backend.WorkOrder.Outcomes.Told.{IsDueNotice, ConcernedTold}
use scc_backend.WorkOrder.Cron.{is_due}

module _ (c : Env) (checked : ℕ) (id : String) where
  -- The work order has become REMOVAL_DUE: it was active, and due at the instant `checked`; it bears
  -- an instant of the clock; only notices of it are added, and all concerned have theirs.
  pub record MarkedDue (before after : Db) : Type 0 where
    pub work_order : WorkOrder
    pub statement : ℕ
    pub found : read_found (find_work_order id before.work_orders) ≡ some work_order
    pub was_due : is_due checked work_order ≡ true
    pub single :
        count_where (is_in_status work_order.id (WorkOrderStatus.active ∷ [])) before.work_orders
        ≡ 1
    pub result : after ≡ record before {
      work_orders =
          (after_new_status
            (record work_order {
              status = WorkOrderStatus.removal_due;
              updated_at = c.clock statement;
            })
            (WorkOrderStatus.active ∷ [])
            before).work_orders;
      notifications = after.notifications;
    }
    pub grown : Grown (IsDueNotice work_order.id) before.notifications after.notifications
    pub told : ConcernedTold work_order before.users after.notifications

  -- Nothing has changed: the work order is gone, or not due at the instant `checked`.
  abbrev pub NotDue : Db → Db → Type 0
  NotDue before after =
      (after ≡ before)
      × ((read_found (find_work_order id before.work_orders) ≡ none)
          ⊎ ((w : WorkOrder) × (read_found (find_work_order id before.work_orders) ≡ some w)
              × (is_due checked w ≡ false)))
