-- ===== src/WorkOrder/Outcomes/Cancellation.antt =====
-- What the transaction of `Cancel` has done when it commits.
use scc_backend.Base.{
  ℕ, ◌≡◌, refl, sym, inl, inr, String, Bool, true, Option, some, List, [], ◌∷◌, str_eq, count_where,
  delete_where, Bool-cases, if◌then◌else◌, arith,
}
use scc_backend.Domain.WorkOrder.{WorkOrderStatus, is_valid_transition}
use scc_backend.Store.{Db, WorkOrder, Installation}
use scc_backend.Effect.{Env, Session, ok, transaction}
use scc_backend.Effect.Ensures.{
  On, On-holds, On-after, On-weaken, refuse_if_rule, execute_rule, time_now_rule, transaction_rule,
}
use scc_backend.Borrow.Effects.{lock_planning_office_rule}
use scc_backend.WorkOrder.Rows.{find_work_order, read_found, is_draft_of}
use scc_backend.WorkOrder.Desk.{cancel_work_order_tx, release_drafts}
use scc_backend.WorkOrder.Effects.{
  find_by_id_for_update_rule, update_work_order_rule, after_work_order,
}

abbrev pub cancelled : WorkOrder → ℕ → Option String → WorkOrder
cancelled w now note = record w {
  status = WorkOrderStatus.cancelled;
  updated_at = now;
  note = note;
}

-- What the transaction of `Cancel` has done, from `before` to `after`.
pub record Cancelled (id : String) (before after : Db) : Type 0 where
  pub work_order : WorkOrder
  pub now : ℕ
  pub note : Option String
  pub found : read_found (find_work_order id before.work_orders) ≡ some work_order
  pub from : is_valid_transition work_order.status WorkOrderStatus.cancelled ≡ true
  pub result :
      after
      ≡ after_work_order (cancelled work_order now note) (record before {
        installations = delete_where (is_draft_of work_order.id) before.installations;
      })

cancel_work_order_tx_rule :
    (id reason : String) (c : Env) (s : Session)
    → On (λ _ t. Cancelled id s.db t.db) (cancel_work_order_tx id reason c s)
unfolding cancel_work_order_tx release_drafts
cancel_work_order_tx_rule id reason c s = On-after _ c (find_by_id_for_update_rule id c s) λ w t p.
    On-after _ c (refuse_if_rule _ _ c t) λ _ t1 p1.
      On-after _ c (lock_planning_office_rule w.office_id c t1) λ _ t2 p2.
        On-after _ c (execute_rule _ c t2) λ _ t3 p3. On-after _ c (time_now_rule c t3) λ now t4 p4.
          On-weaken (update_work_order_rule _ c t4) λ _ t5 p5.
            let start : t2.db ≡ s.db = cc in
            let removed = rw start at p3 in
            record {
              work_order = w;
              now = now;
              note = if str_eq reason "" then w.note else some reason;
              found = p.1;
              from = ground (arith, p1.0);
              result = rw (p4, removed) at p5;
            }

no_drafts :
    (p : Installation → Bool) (rows : List Installation) → count_where p (delete_where p rows) ≡ 0
no_drafts p [] = refl
no_drafts p (i ∷ rows) = elim (Bool-cases (p i)) [
  | inl e ↦ rw e (no_drafts p rows)
  | inr e ↦ rw e (ground (arith, e, no_drafts p rows))
]

-- When `Cancel` of a work order commits, its status allowed the cancellation, no draft of it is
-- left, no installation that is not such a draft has been deleted or changed, and nothing else but
-- the work order's row has changed, which is CANCELLED now.
pub cancel_work_order_tx-Cancelled :
    (id reason : String) (c : Env) (s t : Session)
    → transaction (cancel_work_order_tx id reason) c s ≡ (ok tt, t)
    → (d : Cancelled id s.db t.db) × (count_where (is_draft_of d.work_order.id) t.db.installations
        ≡ 0)
cancel_work_order_tx-Cancelled id reason c s t h =
    let done : Cancelled id s.db t.db =
      On-holds tt t
        (transaction_rule (λ _ db. Cancelled id s.db db) _ c s
          λ u e. rw (sym e) (cancel_work_order_tx_rule id reason c u))
        h in
    (done, rw done.result (no_drafts (is_draft_of done.work_order.id) s.db.installations))
