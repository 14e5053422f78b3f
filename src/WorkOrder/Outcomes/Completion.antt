-- ===== src/WorkOrder/Outcomes/Completion.antt =====
-- What `completeRemoval` has done when it commits.
use scc_backend.Base.{
  ℕ, ◌<◌, ◌≡◌, refl, sym, inl, inr, String, Bool, true, false, ◌==◌, some, List, [], ◌∷◌, is_some,
  length, count_where, select_where, All, Bool-cases, arith,
}
use scc_backend.Domain.WorkOrder.{WorkOrderStatus, status_eq}
use scc_backend.Store.{Db, WorkOrder, Installation}
use scc_backend.Effect.{Env, Session, ok, after}
use scc_backend.Effect.Ensures.{
  On, value, On-holds, On-after, On-weaken, refuse_if_rule, ask_rule, time_now_rule,
}
use scc_backend.WorkOrder.Rows.{find_work_order, read_found, is_of_work_order}
use scc_backend.WorkOrder.Planning.{normalize_identifier}
use scc_backend.WorkOrder.Effects.{
  authorized_work_order_rule, list_installations_for_update_rule, update_work_order_rule,
  after_work_order, in_transaction_rule,
}
use scc_backend.WorkOrder.Field.{EvidenceActor, evidence_mutation_allowed}
use scc_backend.WorkOrder.Removal.{
  require_removed, has_remove_evidence, complete_removal_tx, complete_removal,
}

abbrev pub IsRemoved : (String → Bool) → String → Installation → Type 0
IsRemoved is_uuid id i =
    (is_some i.installed_at ≡ true)
    × (is_some i.removed_at ≡ true)
    × (has_remove_evidence is_uuid id i ≡ true)

require_removed_rule :
    (id : String) (rows : List Installation) (c : Env) (s : Session)
    → On (λ _ t. (t.db ≡ s.db) × All (IsRemoved c.is_uuid id) rows) (require_removed id rows c s)
unfolding require_removed
require_removed_rule id [] c s = value (refl, tt)
require_removed_rule id (i ∷ rows) c s = On-after _ c (ask_rule (λ x. x.is_uuid) c s) λ f t p.
    On-after _ c (refuse_if_rule _ _ c t) λ _ t1 p1.
      On-after _ c (refuse_if_rule _ _ c t1) λ _ t2 p2.
        On-weaken (require_removed_rule id rows c t2) λ _ t3 p3. (
          cc,
          ((ground (arith, p1.0), ground (arith, p1.0), rw (sym p.0) (ground (arith, p2.0))), p3.1),
        )

-- What `completeRemoval` has done, from `before` to `after`.
pub record Completed (is_uuid : String → Bool) (actor : EvidenceActor) (id : String)
    (before after : Db) : Type 0 where
  pub work_order : WorkOrder
  pub now : ℕ
  pub found : read_found (find_work_order id before.work_orders) ≡ some work_order
  pub authorized : evidence_mutation_allowed actor work_order ≡ true
  pub from : status_eq work_order.status WorkOrderStatus.removing ≡ true
  pub installed : 0 < count_where (is_of_work_order id) before.installations
  pub removed :
      All
        (IsRemoved is_uuid work_order.id)
        (select_where (is_of_work_order id) before.installations)
  pub result :
      after
      ≡ after_work_order
          (record work_order {
            status = WorkOrderStatus.completed;
            completed_at = some now;
            updated_at = now;
          })
          before

pub some_length :
    (id : String) (rows : List Installation)
    → (length (select_where (is_of_work_order id) rows) == 0) ≡ false
    → 0 < count_where (is_of_work_order id) rows
some_length id [] e = cc e
some_length id (i ∷ rows) e = elim (Bool-cases (is_of_work_order id i)) [
  | inl f ↦ ground (arith, f)
  | inr f ↦ ground (arith, f, some_length id rows (rw f at e))
]

complete_removal_tx_rule :
    (actor : EvidenceActor) (id : String) (c : Env) (s : Session)
    → On (λ _ t. Completed c.is_uuid actor id s.db t.db) (complete_removal_tx actor id c s)
unfolding complete_removal_tx
complete_removal_tx_rule actor id c s =
    On-after _ c (authorized_work_order_rule actor id c s) λ w t p.
      On-after _ c (refuse_if_rule _ _ c t) λ _ t1 p1.
        On-after _ c (list_installations_for_update_rule id c t1) λ rows t2 p2.
          On-after _ c (refuse_if_rule _ _ c t2) λ _ t3 p3.
            On-after _ c (require_removed_rule w.id rows c t3) λ _ t4 p4.
              On-after _ c (time_now_rule c t4) λ now t5 p5.
                On-weaken (update_work_order_rule _ c t5) λ _ t6 p6.
                  let start : t5.db ≡ s.db = cc in
                  let before : t1.db ≡ s.db = cc in
                  let listed = rw before at p2.0 in
                  record {
                    work_order = w;
                    now = now;
                    found = p.1;
                    authorized = p.2;
                    from = ground (arith, p1.0);
                    installed = some_length id s.db.installations (rw listed at p3.0);
                    removed = rw listed at p4.1;
                    result = rw start at p6;
                  }

-- When `completeRemoval` of a work order commits, the actor was allowed to work on it, it was
-- REMOVING and had covers, each of them was installed, removed, and had valid removal evidence of
-- this work order and this cover; and nothing but the work order's row has changed, which is
-- COMPLETED now.
pub complete_removal-Completed :
    (actor : EvidenceActor) (id : String) (c : Env) (s t : Session)
    → complete_removal actor id c s ≡ (ok tt, t)
    → Completed c.is_uuid actor (normalize_identifier c.nfc id) s.db t.db
unfolding complete_removal after
complete_removal-Completed actor id c s t h =
    On-holds tt t
      (in_transaction_rule
        (λ _ db. Completed c.is_uuid actor (normalize_identifier c.nfc id) s.db db) _ c s
        λ u e. rw (sym e) (complete_removal_tx_rule actor (normalize_identifier c.nfc id) c u))
      h
