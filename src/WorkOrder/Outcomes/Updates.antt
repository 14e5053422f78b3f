-- ===== src/WorkOrder/Outcomes/Updates.antt =====
-- What `UpdateScheduled` returns.
use scc_backend.Base.{
  ◌≡◌, ◌≤◌, get_option, if◌then◌else◌, refl, sym, String, Bool, true, false, Option, none, some,
  arith, ap,
}
use scc_backend.Domain.WorkOrder.{UsageType, WorkOrderStatus, status_eq}
use scc_backend.Store.{Db, WorkOrder}
use scc_backend.Effect.{Env, Session, ok, transaction, pure}
use scc_backend.Effect.Ensures.{
  On, value, On-holds, On-after, On-weaken, refuse_if_rule, execute_rule, time_now_rule, pure_rule,
  transaction_rule,
}
use scc_backend.Borrow.Effects.{lock_planning_office_rule}
use scc_backend.WorkOrder.Rows.{find_work_order, read_work_order, read_found, update_scheduled_row}
use scc_backend.WorkOrder.Desk.{UpdateParams, update_scheduled_tx}
use scc_backend.WorkOrder.Planning.{available, create_assignment_notification}
use scc_backend.WorkOrder.Effects.{find_by_id_for_update_rule, ensure_planned_qty_available_rule}
use scc_backend.WorkOrder.Outcomes.Creation.{given_target_rule, assignment_rule, Notified}

maybe_told_rule :
    (b : Bool) (id : String) (user_id : Option String) (c : Env) (s : Session)
    → On
        (λ _ t. Notified s.db t.db)
        ((if b then create_assignment_notification id user_id else pure tt) c s)
maybe_told_rule true id user_id c s = assignment_rule id user_id c s
maybe_told_rule false id user_id c s = value refl

-- What `UpdateScheduled` returns, from the tables `before`.
pub record Updated (id : String) (before : Db) (returned : WorkOrder) : Type 0 where
  pub old : WorkOrder
  pub found : find_work_order id before.work_orders ≡ some old
  pub from : status_eq old.status WorkOrderStatus.scheduled ≡ true
  pub same_office : returned.office_id ≡ old.office_id
  pub fits : get_option returned.planned_qty 0 ≤ available returned.office_id (some id) before
  pub usage_type : returned.usage_type ≡ UsageType.other ""

found_row :
    (o : Option WorkOrder) (w : WorkOrder)
    → read_found o ≡ some w
    → (r : WorkOrder) × (o ≡ some r) × (w ≡ read_work_order r)
found_row none w e = cc e
found_row (some r) w e = (r, refl, cc)

update_scheduled_tx_rule :
    (id : String) (p : UpdateParams) (c : Env) (s : Session)
    → On (λ w t. Updated id s.db w) (update_scheduled_tx id p c s)
unfolding update_scheduled_tx update_scheduled_row
update_scheduled_tx_rule id p c s = On-after _ c (find_by_id_for_update_rule id c s) λ w t p0.
    On-after _ c (refuse_if_rule _ _ c t) λ _ t1 p1.
      On-after _ c (refuse_if_rule _ _ c t1) λ _ t2 p2.
        On-after _ c (refuse_if_rule _ _ c t2) λ _ t3 p3.
          On-after _ c (lock_planning_office_rule _ c t3) λ _ t4 p4.
            On-after _ c (given_target_rule _ _ c t4) λ _ t5 p5.
              On-after _ c (ensure_planned_qty_available_rule _ _ _ c t5) λ _ t6 p6.
                On-after _ c (time_now_rule c t6) λ now t7 p7.
                  On-after _ c (execute_rule _ c t7) λ _ t8 p8.
                    On-after _ c (maybe_told_rule _ _ _ c t8) λ _ t9 p9.
                      On-weaken (pure_rule _ c t9) λ x t10 p10.
                        let start : t5.db ≡ s.db = cc in
                        let row = found_row _ w p0.1 in
                        let fits = rw start at p6.1 in
                        rw p10.0 (record {
                          old = row.0;
                          found = row.1;
                          from = ground (arith, p1.0, row.2);
                          same_office = ap (λ (r : WorkOrder). r.office_id) row.2;
                          fits = fits;
                          usage_type = ap (λ (r : WorkOrder). r.usage_type) row.2;
                        })

-- When the transaction of `UpdateScheduled` commits, the work order was SCHEDULED, it stays with its
-- office, and its planned quantity is no more than the stock of the office that the other plans and
-- the borrows leave; but the work order that it returns has the empty text for a usage type,
-- whatever usage type the row has.
pub update_scheduled_tx-Updated :
    (id : String) (p : UpdateParams) (c : Env) (s t : Session) (returned : WorkOrder)
    → transaction (update_scheduled_tx id p) c s ≡ (ok returned, t)
    → Updated id s.db returned
update_scheduled_tx-Updated id p c s t returned h =
    On-holds returned t
      (transaction_rule (λ w _. Updated id s.db w) _ c s
        λ u e. rw (sym e) (update_scheduled_tx_rule id p c u))
      h
