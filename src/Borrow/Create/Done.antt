-- ===== src/Borrow/Create/Done.antt =====
-- What `Create` has done when its transaction commits.
use scc_backend.Base.{ℕ, ◌≤◌, ◌≡◌, refl, String, Option, List, str_eq, count_where, arith, All}
use scc_backend.Store.{Db}
use scc_backend.Effect.{Env, Session, ok}
use scc_backend.Effect.Ensures.{
  On, value, On-holds, On-after, On-weaken, refuse_if_rule, query_rule,
}
use scc_backend.Borrow.Effects.{
  IsActiveActor, ensure_active_actor_rule, lock_planning_office_rule, insert_audit_rule,
}
use scc_backend.Borrow.Create.{
  CreateParams, create_tx, new_borrow, creation_audit, ensure_office_exists, office_name,
}
use scc_backend.Borrow.Create.Reserve.{
  capacity_of, IsLendable, choose_covers_rule, insert_borrow_rule, reserve_all_rule,
  enqueue_lender_exec_notifications_rule,
}
use scc_backend.Borrow.Consistency.Steps.{Created}

ensure_office_exists_rule :
    (office : String) (c : Env) (s : Session)
    → On
        (λ _ t. (count_where (λ o. str_eq o.id office) s.db.offices ≡ 1) × (t.db ≡ s.db))
        (ensure_office_exists office c s)
unfolding ensure_office_exists
ensure_office_exists_rule office c s =
    On-after _ c (query_rule _ c s)
      λ count t p. On-weaken (refuse_if_rule _ _ c t) λ _ t1 p1. (ground arith, cc)

office_name_rule :
    (office : String) (c : Env) (s : Session) → On (λ _ t. t.db ≡ s.db) (office_name office c s)
unfolding office_name
office_name_rule office c s =
    On-after _ c (query_rule _ c s)
      λ name t p. On-after _ c (refuse_if_rule _ _ c t) λ _ t1 p1. value cc

module _ (p : CreateParams) (borrower_office_id : String) (note : Option String)
    (borrow_id : String) (now : ℕ) where
  -- What the transaction has done, from `before` to `after`, when it commits.
  pub record CreateDone (before after : Db) : Type 0 where
    pub ids : List String
    pub actor_active : IsActiveActor p.actor before
    pub lender_known : count_where (λ o. str_eq o.id p.lender_office_id) before.offices ≡ 1
    pub within_capacity : p.requested_qty ≤ capacity_of p.lender_office_id before
    pub lendable : All (IsLendable p.lender_office_id before) ids
    pub created : Created (new_borrow borrow_id borrower_office_id p note now) ids before after
    pub covers_kept : after.covers ≡ before.covers
    pub installations_kept : after.installations ≡ before.installations

  pub create_tx_rule :
      (c : Env) (s : Session)
      → On (λ _ t. CreateDone s.db t.db) (create_tx p borrower_office_id note borrow_id now c s)
  unfolding create_tx
  create_tx_rule c s = On-after _ c (ensure_active_actor_rule p.actor c s) λ _ t h.
      On-after _ c (ensure_office_exists_rule p.lender_office_id c t) λ _ t1 h1.
        On-after _ c (lock_planning_office_rule _ c t1) λ _ t2 h2.
          On-after _ c (choose_covers_rule _ _ c t2) λ ids t3 h3.
            On-after _ c (insert_borrow_rule _ c t3) λ _ t4 h4.
              On-after _ c (reserve_all_rule borrow_id now ids c t4) λ _ t5 h5.
                On-after _ c (insert_audit_rule _ c t5) λ _ t6 h6.
                  On-after _ c (office_name_rule _ c t6) λ name t7 h7.
                    On-weaken (enqueue_lender_exec_notifications_rule _ _ _ _ _ now c t7) λ _ t8 h8.
                      let start : t2.db ≡ s.db = cc in
                      let chosen : t3.db ≡ s.db = cc in
                      record {
                        ids = ids;
                        actor_active = h.1;
                        lender_known = rw h.0 at h1.0;
                        within_capacity = rw start at h3.2;
                        lendable = rw start at h3.3;
                        covers_kept = rw (h8.2, h7, h6.1, h5.2, h4.1, chosen);
                        installations_kept = rw (h8.2, h7, h6.1, h5.2, h4.1, chosen);
                        created = record {
                          now = now;
                          entry_id = h6.0;
                          entry = creation_audit borrow_id p.actor now;
                          fresh = rw chosen at h4.0;
                          status = refl;
                          borrows = rw (h8.2, h7, h6.1, h5.2, h4.1, chosen);
                          quantity = h3.1;
                          links = rw (h8.2, h7, h6.1, h5.2) (rw (h4.1, chosen) at h5.1);
                          audited = rw (h8.2, h7, h6.1, h5.2, h4.1, chosen);
                          entry_borrow = refl;
                          entry_from = refl;
                          entry_to = refl;
                          outbox = rw h8.2 (rw (h7, h6.1, h5.2, h4.1, chosen) at h8.1);
                        };
                      }

-- When the transaction of `Create` commits, the actor is an active user with the claimed role and
-- office, the lender is a known office, the requested quantity is within what the lender can lend,
-- and each of the covers chosen, as many as requested, was in stock at its owner, the lender, with
-- no open installation and no active reservation. The borrow is new, it is requested, each chosen
-- cover is reserved for it, and no cover and no installation has changed.
pub create_tx-CreateDone :
    (p : CreateParams) (borrower_office_id : String) (note : Option String) (borrow_id : String)
    (now : ℕ) (c : Env) (s t : Session)
    → create_tx p borrower_office_id note borrow_id now c s ≡ (ok tt, t)
    → CreateDone p borrower_office_id note borrow_id now s.db t.db
create_tx-CreateDone p borrower_office_id note borrow_id now c s t h =
    On-holds _ _ (create_tx_rule p borrower_office_id note borrow_id now c s) h
