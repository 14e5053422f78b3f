-- ===== src/WorkOrder/Stock/Scans.antt =====
-- The scans, the photos and the desk's calls against the invariant of the stock.
use scc_backend.Base.{
  ◌≡◌, refl, sym, subst, String, Option, none, some, List, [], ◌∷◌, count_where, take_where, arith,
  inl, inr,
}
use scc_backend.Store.{Db, Installation}
use scc_backend.Effect.{Action, Env, Session}
use scc_backend.Effect.Ensures.{
  On, value, On-after, On-weaken, refuse_if_rule, query_rule, new_uuid_rule, time_now_rule,
}
use scc_backend.Effect.Keeps.{Keeps, bind-Keeps, transaction-Keeps}
use scc_backend.Borrow.Effects.{lock_planning_office_rule}
use scc_backend.Borrow.Capacity.{open_installations}
use scc_backend.WorkOrder.Rows.{is_pair, is_draft_pair}
use scc_backend.WorkOrder.Effects.{
  authorized_work_order_rule, find_cover_by_code_for_update_rule, find_installation_for_update_rule,
  add_installation_rule, remove_draft_installation_rule,
}
use scc_backend.WorkOrder.Field.{
  EvidenceActor, is_open_elsewhere, add_draft, add_unless, draft, scan_install_tx, scan_install,
  unscan_install_tx, unscan_install, in_transaction,
}
use scc_backend.WorkOrder.Stock.{IsSound}
use scc_backend.WorkOrder.Stock.Steps.{draft-IsSound, delete-IsSound}

-- What an action ensures, at the session it starts from.
abbrev pub Preserves : {A : Type 0} → Action A → Type 0
Preserves m = (c : Env) (s : Session) → IsSound s.db → On (λ _ t. IsSound t.db) (m c s)

pub in_transaction-Keeps :
    {A : Type 0} (m : Action A) → Preserves m → Keeps IsSound (in_transaction m)
unfolding in_transaction
in_transaction-Keeps m h =
    bind-Keeps IsSound _ _ (λ c s p. p)
      λ b. bind-Keeps IsSound _ _ (λ c s p. p) λ _. transaction-Keeps IsSound m h

pub moved : {before after : Db} → after ≡ before → IsSound before → IsSound after
moved e h = subst IsSound (sym e) h

-- A cover without an installation of the work order, and open in no other one, is not open.
open-elsewhere :
    (work_order_id cover_id : String) (rows : List Installation)
    → take_where (is_pair work_order_id cover_id) rows ≡ none
    → count_where (is_open_elsewhere work_order_id cover_id) rows ≡ 0
    → open_installations cover_id rows ≡ 0
open-elsewhere work_order_id cover_id [] e f = refl
open-elsewhere work_order_id cover_id (i ∷ rows) e f =
    ground (arith, open-elsewhere work_order_id cover_id rows, e, f)

add_draft_rule :
    (work_order_id cover_id : String) (c : Env) (s : Session)
    → take_where (is_pair work_order_id cover_id) s.db.installations ≡ none
    → IsSound s.db
    → On (λ _ t. IsSound t.db) (add_draft work_order_id cover_id c s)
unfolding add_draft
add_draft_rule work_order_id cover_id c s unpaired h = On-after _ c (query_rule _ c s) λ others t p.
    On-after _ c (refuse_if_rule _ _ c t) λ _ t1 p1.
      On-after _ c (query_rule _ c t1) λ reserved t2 p2.
        On-after _ c (refuse_if_rule _ _ c t2) λ _ t3 p3.
          On-after _ c (new_uuid_rule c t3) λ id t4 p4.
            On-after _ c (time_now_rule c t4) λ now t5 p5.
              On-weaken (add_installation_rule (draft id work_order_id cover_id now) c t5)
                λ _ t6 p6.
                  let same : t5.db ≡ s.db = cc in
                  let start : t1.db ≡ s.db = cc in
                  let free = rw start at p2.0 in
                  let none_open =
                    open-elsewhere work_order_id cover_id s.db.installations unpaired
                      (ground (arith, p.0, p1.0)) in
                  elim p6 [
                    | inl e ↦ moved e (moved same h)
                    | inr (fresh, e) ↦ moved e (
                        draft-IsSound (draft id work_order_id cover_id now) t5.db refl refl fresh
                          (rw same (ground (arith, free, p3.0))) (rw same none_open) (moved same h))
                  ]

scan_install_tx-Preserves :
    (actor : EvidenceActor) (id code : String) → Preserves (scan_install_tx actor id code)
unfolding scan_install_tx add_unless
scan_install_tx-Preserves actor id code c s h =
    On-after _ c (authorized_work_order_rule actor id c s) λ w t p.
      On-after _ c (refuse_if_rule _ _ c t) λ _ t1 p1.
        On-after _ c (lock_planning_office_rule w.office_id c t1) λ _ t2 p2.
          On-after _ c (find_cover_by_code_for_update_rule code c t2) λ scanned t3 p3.
            On-after _ c (refuse_if_rule _ _ c t3) λ _ t4 p4.
              On-after _ c (refuse_if_rule _ _ c t4) λ _ t5 p5.
                On-after _ c (find_installation_for_update_rule id scanned.id c t5) λ found t6 p6.
                  let same : t6.db ≡ s.db = cc in
                  let unchanged : t6.db ≡ t5.db = p6.1 in
                  On-after _ c (added found scanned.id t6 (rw unchanged p6.0) (moved same h))
                    λ _ t7 p7. value p7
  where
    added :
        (found : Option Installation) (cover_id : String) (t : Session)
        → found ≡ take_where (is_pair id cover_id) t.db.installations
        → IsSound t.db
        → On (λ _ u. IsSound u.db) (add_unless found id cover_id c t)
    added none cover_id t e k = add_draft_rule id cover_id c t (sym e) k
    added (some i) cover_id t e k = value k

-- `scanInstall` keeps the stock sound, whatever it returns.
pub scan_install-IsSound :
    (actor : EvidenceActor) (id code : String) → Keeps IsSound (scan_install actor id code)
unfolding scan_install
scan_install-IsSound actor id code =
    in_transaction-Keeps _ (scan_install_tx-Preserves actor id code)

unscan_install_tx-Preserves :
    (actor : EvidenceActor) (id cover_id : String) → Preserves (unscan_install_tx actor id cover_id)
unfolding unscan_install_tx
unscan_install_tx-Preserves actor id cover_id c s h =
    On-after _ c (authorized_work_order_rule actor id c s) λ w t p.
      On-after _ c (refuse_if_rule _ _ c t) λ _ t1 p1.
        On-weaken (remove_draft_installation_rule id cover_id c t1) λ _ t2 p2.
          let same : t1.db ≡ s.db = cc in
          moved p2 (
            delete-IsSound (is_draft_pair id cover_id) t1.db (λ i e. ground (arith, e))
              (moved same h))

-- `unscanInstall` keeps the stock sound, whatever it returns.
pub unscan_install-IsSound :
    (actor : EvidenceActor) (id cover_id : String)
    → Keeps IsSound (unscan_install actor id cover_id)
unfolding unscan_install
unscan_install-IsSound actor id cover_id =
    in_transaction-Keeps _ (unscan_install_tx-Preserves actor id cover_id)
