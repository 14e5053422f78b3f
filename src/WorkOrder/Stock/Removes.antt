-- ===== src/WorkOrder/Stock/Removes.antt =====
-- `scanRemove` and `AttachEvidence` against the invariant of the stock.
use scc_backend.Base.{
  ℕ, ◌≡◌, refl, String, true, false, Option, none, some, is_some, take_where, eq_iff, arith, ap,
  sym,
}
use scc_backend.Domain.Cover.{CoverStatus}
use scc_backend.Domain.Evidence.{Kind}
use scc_backend.Store.{Db, Installation, Cover}
use scc_backend.Effect.{Env, Session}
use scc_backend.Effect.Ensures.{
  On, value, On-after, On-weaken, refuse_if_rule, or_fail_rule, time_now_rule, pure_rule,
}
use scc_backend.Effect.Keeps.{Keeps, bind-Keeps, transaction-Keeps, or_fail-Keeps}
use scc_backend.WorkOrder.Rows.{is_pair, mark_in_stock}
use scc_backend.WorkOrder.Effects.{
  authorized_work_order_rule, find_cover_by_code_for_update_rule, find_installation_for_update_rule,
  update_installation_rule, set_cover_status_rule, find_by_id_for_update_rule,
}
use scc_backend.WorkOrder.Field.{EvidenceActor}
use scc_backend.WorkOrder.Removal.{remove_cover, remove_unless, scan_remove_tx, scan_remove}
use scc_backend.WorkOrder.Photos.{
  ObjectStore, Stat, validate_evidence_input, validate_evidence_mutation, with_store, with_photo,
  attach_tx, check_stat, attach_evidence,
}
use scc_backend.WorkOrder.Stock.{IsSound, is_ordered}
use scc_backend.WorkOrder.Stock.Only.{Only, All-Only, All-both, All-take_where}
use scc_backend.WorkOrder.Stock.Steps.{rewrite-IsSound, remove-IsSound}
use scc_backend.WorkOrder.Stock.Scans.{Preserves, in_transaction-Keeps, moved}

-- A row that a query by the pair has read.
pub record Read (work_order_id cover_id : String) (i : Installation) (db : Db) : Type 0 where
  pub only : Only i db.installations
  pub ordered : is_ordered i ≡ true
  pub pair : is_pair work_order_id cover_id i ≡ true

pub found-Read :
    (work_order_id cover_id : String) (i : Installation) (db : Db)
    → IsSound db
    → take_where (is_pair work_order_id cover_id) db.installations ≡ some i
    → Read work_order_id cover_id i db
found-Read work_order_id cover_id i db h e =
    let known =
      All-both (λ i. Only i db.installations) (λ i. is_ordered i ≡ true) db.installations
        (All-Only db.installations h.single_installation) h.ordered in
    let found = All-take_where _ (is_pair work_order_id cover_id) db.installations i known e in
    record { only = found.0.0; ordered = found.0.1; pair = found.1 }

remove_cover_rule :
    (work_order_id office : String) (i : Installation) (scanned : Cover) (c : Env) (s : Session)
    → Read work_order_id scanned.id i s.db
    → is_some i.installed_at ≡ true
    → is_some i.removed_at ≡ false
    → IsSound s.db
    → On (λ _ t. IsSound t.db) (remove_cover office i scanned c s)
unfolding remove_cover mark_in_stock
remove_cover_rule work_order_id office i scanned c s r installed kept h =
    On-after _ c (refuse_if_rule _ _ c s) λ _ t p. On-after _ c (refuse_if_rule _ _ c t) λ _ t1 p1.
      On-after _ c (time_now_rule c t1) λ now t2 p2.
        On-after _ c (update_installation_rule (record i { removed_at = some now }) c t2) λ _ t3 p3.
          On-after _ c
            (set_cover_status_rule scanned.id CoverStatus.installed CoverStatus.in_stock now c t3)
            λ _ t4 p4. On-weaken (pure_rule _ c t4) λ x t5 p5.
              let start : t2.db ≡ s.db = cc in
              let cover : scanned.id ≡ i.cover_id =
                sym ((eq_iff i.cover_id scanned.id).0 (ground (arith, r.pair))) in
              let one = rw (p3, start, cover) at p4.0 in
              let reached = rw (p3, start, cover) at p4.1 in
              let last : t5.db ≡ t4.db = ap (λ (x : Session). x.db) p5.1 in
              moved last (
                moved reached (
                  remove-IsSound i (record i { removed_at = some now }) s.db refl r.only h now refl
                    installed installed kept one))

remove_unless_rule :
    (work_order_id office : String) (i : Installation) (scanned : Cover) (removed : Option ℕ)
    (c : Env) (s : Session)
    → i.removed_at ≡ removed
    → Read work_order_id scanned.id i s.db
    → is_some i.installed_at ≡ true
    → IsSound s.db
    → On (λ _ t. IsSound t.db) (remove_unless removed office i scanned c s)
unfolding remove_unless
remove_unless_rule work_order_id office i scanned none c s e r installed h =
    remove_cover_rule work_order_id office i scanned c s r installed (rw e refl) h
remove_unless_rule work_order_id office i scanned (some at) c s e r installed h = value h

scan_remove_tx-Preserves :
    (actor : EvidenceActor) (id code : String) → Preserves (scan_remove_tx actor id code)
unfolding scan_remove_tx
scan_remove_tx-Preserves actor id code c s h =
    On-after _ c (authorized_work_order_rule actor id c s) λ w t p.
      On-after _ c (refuse_if_rule _ _ c t) λ _ t1 p1.
        On-after _ c (find_cover_by_code_for_update_rule code c t1) λ scanned t2 p2.
          On-after _ c (find_installation_for_update_rule id scanned.id c t2) λ found t3 p3.
            On-after _ c (or_fail_rule found _ c t3) λ i t4 p4.
              On-after _ c (refuse_if_rule _ _ c t4) λ _ t5 p5.
                let same : t5.db ≡ s.db = cc in
                let before : t2.db ≡ s.db = cc in
                let sound = moved same h in
                let read : take_where (is_pair id scanned.id) t5.db.installations ≡ some i =
                  rw same (sym (rw (p4.0, before) at p3.0)) in
                remove_unless_rule id w.office_id i scanned i.removed_at c t5 refl
                  (found-Read id scanned.id i t5.db sound read) (ground (arith, p5.0)) sound

-- `scanRemove` keeps the stock sound, whatever it returns.
pub scan_remove-IsSound :
    (actor : EvidenceActor) (id code : String) → Keeps IsSound (scan_remove actor id code)
unfolding scan_remove
scan_remove-IsSound actor id code = in_transaction-Keeps _ (scan_remove_tx-Preserves actor id code)

pub validate_evidence_mutation_rule :
    (actor : EvidenceActor) (kind : Kind) (work_order_id cover_id : String) (c : Env) (s : Session)
    → On
        (λ i t.
          (t.db ≡ s.db) × (take_where (is_pair work_order_id cover_id) s.db.installations ≡ some i))
        (validate_evidence_mutation actor kind work_order_id cover_id c s)
unfolding validate_evidence_mutation
validate_evidence_mutation_rule actor kind work_order_id cover_id c s =
    On-after _ c (find_by_id_for_update_rule work_order_id c s) λ w t p.
      On-after _ c (refuse_if_rule _ _ c t) λ _ t1 p1.
        On-after _ c (find_installation_for_update_rule work_order_id cover_id c t1) λ found t2 p2.
          On-after _ c (or_fail_rule found _ c t2) λ i t3 p3.
            On-after _ c (refuse_if_rule _ _ c t3) λ _ t4 p4.
              On-weaken (pure_rule i c t4) λ x t5 p5.
                let before : t1.db ≡ s.db = cc in (cc, sym (rw (p3.0, before, sym p5.0) at p2.0))

with_photo_keeps :
    (kind : Kind) (key : String) (i : Installation)
    → ((with_photo kind key i).id ≡ i.id)
      × ((with_photo kind key i).installed_at ≡ i.installed_at)
      × ((with_photo kind key i).removed_at ≡ i.removed_at)
with_photo_keeps Kind.install key i = (refl, refl, refl)
with_photo_keeps Kind.remove key i = (refl, refl, refl)
with_photo_keeps (Kind.other k) key i = (refl, refl, refl)

attach_tx-Preserves :
    (actor : EvidenceActor) (kind : Kind) (work_order_id cover_id key : String)
    → Preserves (attach_tx actor kind work_order_id cover_id key)
unfolding attach_tx
attach_tx-Preserves actor kind work_order_id cover_id key c s h =
    On-after _ c (validate_evidence_mutation_rule actor kind work_order_id cover_id c s) λ i t p.
      On-weaken (update_installation_rule (with_photo kind key i) c t) λ _ t1 p1.
        let read = found-Read work_order_id cover_id i s.db h p.1 in
        let same = with_photo_keeps kind key i in
        moved (rw p.0 at p1) (
          rewrite-IsSound i (with_photo kind key i) s.db same.0 read.only h (ap is_some same.1)
            (ap is_some same.2) read.ordered)

pub validate-Preserves :
    (actor : EvidenceActor) (kind : Kind) (work_order_id cover_id : String)
    → Preserves (validate_evidence_mutation actor kind work_order_id cover_id)
validate-Preserves actor kind work_order_id cover_id c s h =
    On-weaken (validate_evidence_mutation_rule actor kind work_order_id cover_id c s)
      λ i t p. moved p.0 h

-- `AttachEvidence` keeps the stock sound, whatever it returns and whatever the object store says.
pub attach_evidence-IsSound :
    (parse : String → Option String) (stores : Option ObjectStore) (actor : EvidenceActor)
    (kind : Kind) (work_order_id cover_id key : String)
    → Keeps IsSound (attach_evidence parse stores actor kind work_order_id cover_id key)
unfolding attach_evidence validate_evidence_input with_store check_stat
attach_evidence-IsSound parse stores actor kind work_order_id cover_id key =
    bind-Keeps IsSound _ _ (λ c s p. p)
      λ _.
        bind-Keeps IsSound _ _ (λ c s p. p)
          λ f.
            bind-Keeps IsSound _ _ (λ c s p. p)
              λ _.
                bind-Keeps IsSound _ _
                  (bind-Keeps IsSound _ _ (λ c s p. p)
                    λ b. bind-Keeps IsSound _ _ (λ c s p. p) λ _. or_fail-Keeps IsSound stores _)
                  λ store.
                    bind-Keeps IsSound _ _
                      (transaction-Keeps IsSound _
                        (validate-Preserves actor kind work_order_id cover_id))
                      λ i. bind-Keeps IsSound _ _ (checked (store.stat key)) λ _.
                        transaction-Keeps IsSound _
                          (attach_tx-Preserves actor kind work_order_id cover_id key)
  where
    checked : (x : Stat) → Keeps IsSound (check_stat parse x)
    checked Stat.absent c s p = p
    checked Stat.unavailable c s p = p
    checked (Stat.present m) c s p = p
