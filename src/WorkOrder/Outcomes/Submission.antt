-- ===== src/WorkOrder/Outcomes/Submission.antt =====
-- What `submitInstall` has done when it commits.
use scc_backend.Base.{
  ℕ, ◌≤◌, ◌<◌, ◌≡◌, sym, String, Bool, true, false, some, List, [], ◌∷◌, is_some, length,
  count_where, select_where, All, arith,
}
use scc_backend.Domain.Cover.{CoverStatus}
use scc_backend.Domain.WorkOrder.{WorkOrderStatus, is_valid_transition}
use scc_backend.Store.{Db, WorkOrder, Installation}
use scc_backend.Effect.{Env, Session, ok}
use scc_backend.Effect.Ensures.{
  On, value, On-holds, On-after, On-weaken, refuse_if_rule, time_now_rule,
}
use scc_backend.Borrow.Effects.{lock_planning_office_rule}
use scc_backend.WorkOrder.Rows.{
  find_work_order, read_found, is_of_work_order, mark_installed, is_cover_in,
}
use scc_backend.WorkOrder.Planning.{available}
use scc_backend.WorkOrder.Effects.{
  authorized_work_order_rule, list_installations_for_update_rule, ensure_planned_qty_available_rule,
  update_installation_rule, set_cover_status_rule, update_work_order_rule, after_work_order,
  in_transaction_rule,
}
use scc_backend.WorkOrder.Field.{EvidenceActor, evidence_mutation_allowed}
use scc_backend.WorkOrder.Submit.{
  by_cover, has_install_evidence, committed, commit_all, submit_install_tx, submit_install,
}
use scc_backend.WorkOrder.Outcomes.Completion.{some_length}
use scc_backend.WorkOrder.Stock.Steps.{with_row, with_cover}
use scc_backend.WorkOrder.Stock.Submits.{
  of_cover, refuse_committed_rule, check_all_stock_rule, require_evidence_rule,
}

-- The drafts are committed one after another, each with its cover, which was in stock.
pub data Committed (w : WorkOrder) (now : ℕ) : List Installation → Db → Db → Type 0 where
  done : {db : Db} → Committed w now [] db db
  next :
      {i : Installation} {rest : List Installation} {db after : Db}
      → count_where (is_cover_in i.cover_id CoverStatus.in_stock) db.covers ≡ 1
      → Committed w now rest
          (record db {
            installations = with_row (committed w now i) db.installations;
            covers = with_cover i.cover_id CoverStatus.in_stock CoverStatus.installed now db.covers;
          })
          after
      → Committed w now (i ∷ rest) db after

-- What `submitInstall` has done, from `before` to `after`.
pub record Submitted (is_uuid : String → Bool) (actor : EvidenceActor) (id : String)
    (before after : Db) : Type 0 where
  pub work_order : WorkOrder
  pub drafts : List Installation
  pub now : ℕ
  pub reached : Db
  pub found : read_found (find_work_order id before.work_orders) ≡ some work_order
  pub authorized : evidence_mutation_allowed actor work_order ≡ true
  pub from : is_valid_transition work_order.status WorkOrderStatus.active ≡ true
  pub listed : drafts ≡ select_where (is_of_work_order id) before.installations
  pub scanned : 0 < count_where (is_of_work_order id) before.installations
  pub fits : length drafts ≤ available work_order.office_id (some id) before
  pub uncommitted : All (λ i. is_some i.installed_at ≡ false) drafts
  pub distinct : (cover_id : String) → count_where (of_cover cover_id) drafts ≤ 1
  pub evidenced : All (λ i. has_install_evidence is_uuid work_order.id i ≡ true) (by_cover drafts)
  pub installed : Committed work_order now (by_cover drafts) before reached
  pub result :
      after
      ≡ after_work_order
          (record work_order { status = WorkOrderStatus.active; updated_at = now })
          reached

commit_all-Committed :
    (w : WorkOrder) (now : ℕ) (rows : List Installation) (c : Env) (s : Session)
    → On (λ _ t. Committed w now rows s.db t.db) (commit_all w now rows c s)
unfolding commit_all mark_installed
commit_all-Committed w now [] c s = value done
commit_all-Committed w now (i ∷ rows) c s =
    On-after _ c (update_installation_rule (committed w now i) c s) λ _ t p.
      On-after _ c
        (set_cover_status_rule i.cover_id CoverStatus.in_stock CoverStatus.installed now c t)
        λ _ t1 p1. On-weaken (commit_all-Committed w now rows c t1) λ _ t2 p2.
          let one = rw p at p1.0 in let reached = rw p at p1.1 in next one (rw reached at p2)

submit_install_tx_rule :
    (actor : EvidenceActor) (id : String) (c : Env) (s : Session)
    → On (λ _ t. Submitted c.is_uuid actor id s.db t.db) (submit_install_tx actor id c s)
unfolding submit_install_tx
submit_install_tx_rule actor id c s =
    On-after _ c (authorized_work_order_rule actor id c s) λ w t p.
      On-after _ c (refuse_if_rule _ _ c t) λ _ t1 p1.
        On-after _ c (lock_planning_office_rule w.office_id c t1) λ _ t2 p2.
          On-after _ c (list_installations_for_update_rule id c t2) λ drafts t3 p3.
            On-after _ c (refuse_if_rule _ _ c t3) λ _ t4 p4.
              On-after _ c (ensure_planned_qty_available_rule _ _ _ c t4) λ _ t5 p5.
                On-after _ c (refuse_committed_rule [] drafts c t5 λ k. ground arith) λ _ t6 p6.
                  On-after _ c (check_all_stock_rule _ _ c t6) λ _ t7 p7.
                    On-after _ c (require_evidence_rule _ _ c t7) λ _ t8 p8.
                      On-after _ c (time_now_rule c t8) λ now t9 p9.
                        On-after _ c (commit_all-Committed w now (by_cover drafts) c t9)
                          λ _ t10 p10. On-weaken (update_work_order_rule _ c t10) λ _ t11 p11.
                            let start : t9.db ≡ s.db = cc in
                            let before : t2.db ≡ s.db = cc in
                            let measured : t4.db ≡ s.db = cc in
                            let listed = rw before at p3.0 in
                            record {
                              work_order = w;
                              drafts = drafts;
                              now = now;
                              reached = t10.db;
                              found = p.1;
                              authorized = p.2;
                              from = ground (arith, p1.0);
                              listed = listed;
                              scanned = some_length id s.db.installations (rw listed at p4.0);
                              fits = rw measured at p5.1;
                              uncommitted = p6.1;
                              distinct = λ k. ground (arith, p6.2 k);
                              evidenced = p8.1;
                              installed = rw start at p10;
                              result = p11;
                            }

-- When `submitInstall` of a work order commits, the actor was allowed to work on it and its status
-- allowed ACTIVE; it had scanned covers, none committed and none twice, no more than the stock of
-- the office that other plans and borrows leave, each with valid install evidence of this work order
-- and this cover; each was in stock when it was marked INSTALLED and its draft committed, in the
-- order of the covers; and the work order is ACTIVE.
pub submit_install-Submitted :
    (actor : EvidenceActor) (id : String) (c : Env) (s t : Session)
    → submit_install actor id c s ≡ (ok tt, t)
    → Submitted c.is_uuid actor id s.db t.db
unfolding submit_install
submit_install-Submitted actor id c s t h =
    On-holds tt t
      (in_transaction_rule (λ _ db. Submitted c.is_uuid actor id s.db db) _ c s
        λ u e. rw (sym e) (submit_install_tx_rule actor id c u))
      h
