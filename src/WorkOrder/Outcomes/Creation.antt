-- ===== src/WorkOrder/Outcomes/Creation.antt =====
-- What the transaction of `Create` has done when it commits: the plans fit the stock.
use scc_backend.Base.{
  ℕ, ◌+◌, ◌≤◌, ◌<◌, ◌≡◌, refl, sym, inl, inr, String, Bool, true, false, Option, none, some, ◌∷◌,
  str_eq, count_where, take_where, Bool-cases, if◌then◌else◌, arith,
}
use scc_backend.Store.{Db, User, WorkOrder}
use scc_backend.Effect.{Env, Session, ok, after, pure, transaction}
use scc_backend.Effect.Ensures.{
  On, value, On-holds, On-after, On-weaken, ask_rule, insert_unless_rule, time_now_rule,
  new_uuid_rule, transaction_rule,
}
use scc_backend.Borrow.Effects.{lock_planning_office_rule}
use scc_backend.Borrow.Capacity.{is_reserved_at}
use scc_backend.Discrepancy.Shortfall.{is_stock_at}
use scc_backend.WorkOrder.Rows.{insert_work_order}
use scc_backend.WorkOrder.Planning.{
  available, reserved_plans, is_technician_of, notify_assigned, insert_plain_notification,
  create_assignment_notification,
}
use scc_backend.WorkOrder.Desk.{create_work_order_tx, validate_given_target}
use scc_backend.WorkOrder.Effects.{
  ensure_planned_qty_available_rule, validate_assignment_target_rule,
}

-- The plans of the office, and the active reservations of its covers.
abbrev pub claims : String → Db → ℕ
claims office db =
    reserved_plans office none db + count_where (is_reserved_at office db.borrows) db.borrow_covers

abbrev pub stock : String → Db → ℕ
stock office db = count_where (is_stock_at office) db.covers

-- The assignee, where there is one, is an active technician of the office.
abbrev pub IsAssignable : String → Option String → Db → Type 0
IsAssignable office none db = Unit
IsAssignable office (some id) db =
    (u : User) × (take_where (λ r. str_eq r.id id) db.users ≡ some u)
    × (is_technician_of office u ≡ true)

pub given_target_rule :
    (office : String) (user_id : Option String) (c : Env) (s : Session)
    → On
        (λ _ t. (t.db ≡ s.db) × IsAssignable office user_id s.db)
        (validate_given_target office user_id c s)
unfolding validate_given_target
given_target_rule office none c s = value (refl, tt)
given_target_rule office (some id) c s = validate_assignment_target_rule office id c s

-- Tables that differ in the notifications.
abbrev pub Notified : Db → Db → Type 0
Notified before after = after ≡ record before { notifications = after.notifications }

pub assignment_rule :
    (id : String) (user_id : Option String) (c : Env) (s : Session)
    → On (λ _ t. Notified s.db t.db) (create_assignment_notification id user_id c s)
unfolding create_assignment_notification notify_assigned insert_plain_notification
assignment_rule id none c s = value refl
assignment_rule id (some user_id) c s = On-after _ c (ask_rule (λ x. x.has_notif_repo) c s) λ b t p.
    elim (Bool-cases b) [
      | inl e ↦
          rw (e, p.1)
            (On-after _ c (new_uuid_rule c s) λ n t1 p1.
              On-after _ c (time_now_rule c t1) λ now t2 p2.
                On-weaken (insert_unless_rule _ _ c t2) λ _ t3 p3.
                  let start : t2.db ≡ s.db = cc in
                  let reached = rw start at p3.1 in rw reached refl)
      | inr e ↦ rw (e, p.1) (value refl)
    ]

-- What the transaction of `Create` has done, from `before` to `after`.
pub record Planned (w : WorkOrder) (planned_qty : ℕ) (before after : Db) : Type 0 where
  pub fits : planned_qty ≤ available w.office_id none before
  pub assignable : IsAssignable w.office_id w.assigned_to_id before
  pub result :
      after
      ≡ record before { work_orders = w ∷ before.work_orders; notifications = after.notifications }

pub maybe_assignment_rule :
    (b : Bool) (id : String) (user_id : Option String) (c : Env) (s : Session)
    → On
        (λ _ t. Notified s.db t.db)
        ((if b then pure tt else create_assignment_notification id user_id) c s)
maybe_assignment_rule true id user_id c s = value refl
maybe_assignment_rule false id user_id c s = assignment_rule id user_id c s

create_work_order_tx_rule :
    (w : WorkOrder) (planned_qty : ℕ) (c : Env) (s : Session)
    → On (λ _ t. Planned w planned_qty s.db t.db) (create_work_order_tx w planned_qty c s)
unfolding create_work_order_tx insert_work_order
create_work_order_tx_rule w planned_qty c s =
    On-after _ c (lock_planning_office_rule w.office_id c s) λ _ t p.
      On-after _ c (ensure_planned_qty_available_rule _ _ _ c t) λ _ t1 p1.
        On-after _ c (given_target_rule _ _ c t1) λ _ t2 p2.
          On-after _ c (insert_unless_rule _ _ c t2) λ _ t3 p3.
            On-weaken (maybe_assignment_rule _ _ _ c t3) λ _ t4 p4.
              let start : t2.db ≡ s.db = cc in
              let before : t1.db ≡ s.db = cc in
              let reached = rw start at p3.1 in
              record {
                fits = rw p at p1.1;
                assignable = rw before at p2.1;
                result = rw reached at p4;
              }

pub claims-Planned :
    (w : WorkOrder) (planned_qty : ℕ) (before after : Db)
    → w.planned_qty ≡ some planned_qty
    → 0 < planned_qty
    → Planned w planned_qty before after
    → claims w.office_id after ≤ stock w.office_id after
claims-Planned w n before after e positive d = rw d.result (ground (arith, d.fits, e, positive))

-- When the transaction of `Create` commits a work order with a positive planned quantity, the
-- scheduled plans of its office and the active reservations of its covers for borrows fit the stock
-- at the office together, and the assignee, where there is one, was an active technician of the
-- office.
pub create_work_order_tx-fits :
    (w : WorkOrder) (planned_qty : ℕ) (c : Env) (s t : Session)
    → w.planned_qty ≡ some planned_qty
    → 0 < planned_qty
    → transaction (create_work_order_tx w planned_qty) c s ≡ (ok tt, t)
    → (claims w.office_id t.db ≤ stock w.office_id t.db)
      × IsAssignable w.office_id w.assigned_to_id s.db
create_work_order_tx-fits w n c s t e positive h =
    let done : Planned w n s.db t.db =
      On-holds tt t
        (transaction_rule (λ _ db. Planned w n s.db db) _ c s
          λ u f. rw (sym f) (create_work_order_tx_rule w n c u))
        h in
    (claims-Planned w n s.db t.db e positive done, done.assignable)
