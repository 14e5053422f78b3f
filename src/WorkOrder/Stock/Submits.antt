-- ===== src/WorkOrder/Stock/Submits.antt =====
-- `submitInstall` against the invariant of the stock: its loops over the drafts.
use scc_backend.Base.{
  ℕ, ◌+◌, ◌≤◌, ◌≡◌, refl, sym, String, Bool, true, false, List, [], ◌∷◌, str_eq, str_eq_refl,
  eq_iff, is_some, count_where, select_where, update_where, All, All-order_by, count_where-order_by,
  arith,
}
use scc_backend.Domain.Cover.{CoverStatus}
use scc_backend.Store.{Db, WorkOrder, Installation}
use scc_backend.Effect.{Env, Session}
use scc_backend.Effect.Ensures.{
  On, value, On-after, On-weaken, refuse_if_rule, query_rule, ask_rule, time_now_rule, or_fail_rule,
}
use scc_backend.Effect.Keeps.{Keeps}
use scc_backend.Borrow.Effects.{lock_planning_office_rule}
use scc_backend.WorkOrder.Rows.{
  has_installation_id, with_installation, is_of_work_order, find_cover_by_id_for_update,
  mark_installed, has_active_installation_for_cover,
}
use scc_backend.WorkOrder.Effects.{
  authorized_work_order_rule, list_installations_for_update_rule, update_installation_rule,
  set_cover_status_rule, update_work_order_rule, ensure_planned_qty_available_rule,
}
use scc_backend.WorkOrder.Field.{EvidenceActor}
use scc_backend.WorkOrder.Submit.{
  is_listed, refuse_committed, by_cover, check_stock, check_all_stock, has_install_evidence,
  require_evidence, committed, commit_all, submit_install_tx, submit_install,
}
use scc_backend.WorkOrder.Stock.{IsSound, SameStock-IsSound, is_ordered}
use scc_backend.WorkOrder.Stock.Lists.{one_if}
use scc_backend.WorkOrder.Stock.Only.{
  Only, All-Only, All-map, All-both, All-select_where, Only-other,
}
use scc_backend.WorkOrder.Stock.Steps.{commit-IsSound}
use scc_backend.WorkOrder.Stock.Scans.{Preserves, in_transaction-Keeps, moved}

abbrev pub of_cover : String → Installation → Bool
of_cover id i = str_eq i.cover_id id

-- No cover is twice among the drafts, and none of them has been seen.
abbrev Distinct : List String → List Installation → Type 0
Distinct seen rows =
    (id : String) → count_where (of_cover id) rows + one_if (is_listed id seen) 1 ≤ 1

abbrev IsDraft : Installation → Type 0
IsDraft i = is_some i.installed_at ≡ false

Distinct-next :
    (seen : List String) (i : Installation) (rows : List Installation)
    → is_listed i.cover_id seen ≡ false
    → Distinct (i.cover_id ∷ seen) rows
    → Distinct seen (i ∷ rows)
Distinct-next seen i rows e h id = ground (arith, h id, e, eq_iff i.cover_id id)

pub refuse_committed_rule :
    (seen : List String) (rows : List Installation) (c : Env) (s : Session)
    → ((id : String) → count_where (of_cover id) [] + one_if (is_listed id seen) 1 ≤ 1)
    → On
        (λ _ t. (t.db ≡ s.db) × All IsDraft rows × Distinct seen rows)
        (refuse_committed seen rows c s)
unfolding refuse_committed
refuse_committed_rule seen [] c s h = value (refl, tt, h)
refuse_committed_rule seen (i ∷ rows) c s h = On-after _ c (refuse_if_rule _ _ c s) λ _ t p.
    On-after _ c (refuse_if_rule _ _ c t) λ _ t1 p1.
      On-weaken (refuse_committed_rule (i.cover_id ∷ seen) rows c t1 λ id. ground arith)
        λ _ t2 p2. (cc, (p.0, p2.1), Distinct-next seen i rows p1.0 p2.2)

check_stock_rule :
    (office : String) (i : Installation) (c : Env) (s : Session)
    → On (λ _ t. t.db ≡ s.db) (check_stock office i c s)
unfolding check_stock find_cover_by_id_for_update has_active_installation_for_cover
check_stock_rule office i c s =
    On-after _ c
      (On-after _ c (query_rule _ c s)
        λ found t p. On-weaken (or_fail_rule found _ c t) λ r t1 p1. ap_db t1 t p1.1 p.1)
      λ r t p. On-after _ c (refuse_if_rule _ _ c t) λ _ t1 p1.
        On-after _ c (refuse_if_rule _ _ c t1) λ _ t2 p2.
          On-after _ c (query_rule _ c t2) λ b t3 p3.
            On-after _ c (refuse_if_rule _ _ c t3) λ _ t4 p4.
              On-after _ c (query_rule _ c t4)
                λ n t5 p5. On-weaken (refuse_if_rule _ _ c t5) λ _ t6 p6. cc
  where
    ap_db : (u v : Session) → u ≡ v → v.db ≡ s.db → u.db ≡ s.db
    ap_db u v e f = cc

pub check_all_stock_rule :
    (office : String) (rows : List Installation) (c : Env) (s : Session)
    → On (λ _ t. t.db ≡ s.db) (check_all_stock office rows c s)
unfolding check_all_stock
check_all_stock_rule office [] c s = value refl
check_all_stock_rule office (i ∷ rows) c s =
    On-after _ c (check_stock_rule office i c s)
      λ _ t p. On-weaken (check_all_stock_rule office rows c t) λ _ t1 p1. cc

pub require_evidence_rule :
    (id : String) (rows : List Installation) (c : Env) (s : Session)
    → On
        (λ _ t. (t.db ≡ s.db) × All (λ i. has_install_evidence c.is_uuid id i ≡ true) rows)
        (require_evidence id rows c s)
unfolding require_evidence
require_evidence_rule id [] c s = value (refl, tt)
require_evidence_rule id (i ∷ rows) c s = On-after _ c (ask_rule (λ x. x.is_uuid) c s) λ f t p.
    On-after _ c (refuse_if_rule _ _ c t) λ _ t1 p1.
      On-weaken (require_evidence_rule id rows c t1)
        λ _ t2 p2. (cc, (rw (sym p.0) (ground (arith, p1.0)), p2.1))

-- What the loop needs of a draft.
pub record Ready (db : Db) (i : Installation) : Type 0 where
  pub only : Only i db.installations
  pub draft : is_some i.installed_at ≡ false
  pub unremoved : is_some i.removed_at ≡ false

module _ (w : WorkOrder) (now : ℕ) where
  Ready-next :
      (i : Installation) (rest : List Installation) (before after : Db)
      → after.installations
        ≡ update_where
            (has_installation_id i.id)
            (with_installation (committed w now i))
            before.installations
      → Only i before.installations
      → ((j : Installation) → Ready before j → str_eq i.cover_id j.cover_id ≡ false → Ready after j)
  Ready-next i rest before after e o j r other = record {
    only = rw e (
        Only-other i j (with_installation (committed w now i)) before.installations (λ x. refl) o
          r.only other);
    draft = r.draft;
    unremoved = r.unremoved;
  }

  All-Ready :
      (i : Installation) (rows : List Installation) (before after : Db)
      → ((j : Installation) → Ready before j → str_eq i.cover_id j.cover_id ≡ false → Ready after j)
      → count_where (of_cover i.cover_id) rows ≡ 0
      → All (Ready before) rows
      → All (Ready after) rows
  All-Ready i [] before after f e h = tt
  All-Ready i (j ∷ rows) before after f e h = (
    f j h.0 (ground (arith, e, eq_iff i.cover_id j.cover_id, str_eq_refl i.cover_id)),
    All-Ready i rows before after f (ground (arith, e)) h.1,
  )

  commit_all_rule :
      (rows : List Installation) (c : Env) (s : Session)
      → All (Ready s.db) rows
      → Distinct [] rows
      → IsSound s.db
      → On (λ _ t. IsSound t.db) (commit_all w now rows c s)
  unfolding commit_all mark_installed
  commit_all_rule [] c s r d h = value h
  commit_all_rule (i ∷ rows) c s r d h =
      On-after _ c (update_installation_rule (committed w now i) c s) λ _ t p.
        On-after _ c
          (set_cover_status_rule i.cover_id CoverStatus.in_stock CoverStatus.installed now c t)
          λ _ t1 p1.
            let one = rw p at p1.0 in
            let reached = rw p at p1.1 in
            commit_all_rule rows c t1
              (All-Ready i rows s.db t1.db (Ready-next i rows s.db t1.db (rw reached refl) r.0.only)
                (ground (arith, d i.cover_id, str_eq_refl i.cover_id)) r.1)
              (λ id. ground (arith, d id))
              (moved reached (
                commit-IsSound i (committed w now i) s.db refl r.0.only h now refl r.0.unremoved
                  r.0.draft r.0.unremoved one))

-- The drafts of a work order are ready.
drafts-Ready :
    (id : String) (db : Db)
    → IsSound db
    → All IsDraft (select_where (is_of_work_order id) db.installations)
    → All (Ready db) (by_cover (select_where (is_of_work_order id) db.installations))
drafts-Ready id db h drafts =
    let rows = select_where (is_of_work_order id) db.installations in
    let known =
      All-both (λ i. Only i db.installations) (λ i. is_ordered i ≡ true) db.installations
        (All-Only db.installations h.single_installation) h.ordered in
    let selected = All-select_where _ (is_of_work_order id) db.installations known in
    All-order_by (Ready db) _ rows (
      All-map rows
        (λ i p. record { only = p.0.0.0; draft = p.1; unremoved = ground (arith, p.0.0.1, p.1) })
        (All-both _ IsDraft rows selected drafts))

submit_install_tx-Preserves :
    (actor : EvidenceActor) (id : String) → Preserves (submit_install_tx actor id)
unfolding submit_install_tx
submit_install_tx-Preserves actor id c s h =
    On-after _ c (authorized_work_order_rule actor id c s) λ w t p.
      On-after _ c (refuse_if_rule _ _ c t) λ _ t1 p1.
        On-after _ c (lock_planning_office_rule w.office_id c t1) λ _ t2 p2.
          On-after _ c (list_installations_for_update_rule id c t2) λ drafts t3 p3.
            On-after _ c (refuse_if_rule _ _ c t3) λ _ t4 p4.
              On-after _ c (ensure_planned_qty_available_rule _ _ _ c t4) λ _ t5 p5.
                On-after _ c (refuse_committed_rule [] drafts c t5 λ id. ground arith) λ _ t6 p6.
                  On-after _ c (check_all_stock_rule _ _ c t6) λ _ t7 p7.
                    On-after _ c (require_evidence_rule _ _ c t7) λ _ t8 p8.
                      On-after _ c (time_now_rule c t8) λ now t9 p9.
                        let same : t9.db ≡ s.db = cc in
                        let before : t2.db ≡ s.db = cc in
                        let listed : drafts
                            ≡ select_where (is_of_work_order id) t9.db.installations =
                          rw same (rw before at p3.0) in
                        let sound = moved same h in
                        On-after _ c
                          (commit_all_rule w now (by_cover drafts) c t9
                            (rw listed (drafts-Ready id t9.db sound (rw listed at p6.1)))
                            (λ k. rw (count_where-order_by (of_cover k) _ drafts) (p6.2 k)) sound)
                          λ _ t10 p10. On-weaken (update_work_order_rule _ c t10) λ _ t11 p11.
                            SameStock-IsSound
                              (record {
                                covers = rw p11 refl;
                                installations = rw p11 refl;
                                borrow_covers = rw p11 refl;
                              })
                              p10

-- `submitInstall` keeps the stock sound, whatever it returns.
pub submit_install-IsSound :
    (actor : EvidenceActor) (id : String) → Keeps IsSound (submit_install actor id)
unfolding submit_install
submit_install-IsSound actor id = in_transaction-Keeps _ (submit_install_tx-Preserves actor id)
