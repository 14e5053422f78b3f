-- ===== src/Borrow/Lifecycle/Cancel.antt =====
-- What `Cancel` has done when its transaction commits.
use scc_backend.Base.{
  ℕ, ◌≡◌, refl, ◌⊎◌, inl, inr, String, true, false, not, ◌&&◌, Option, some, count_where, arith,
  Bool-cases,
}
use scc_backend.Domain.Borrow.{BorrowStatus, status_eq, eq_of_status_eq, is_valid_transition}
use scc_backend.Store.{Db, BorrowRow}
use scc_backend.Effect.{Env, Session}
use scc_backend.Effect.Ensures.{On, On-after, On-weaken, refuse_if_rule}
use scc_backend.Borrow.Actor.{Actor, can_cancel}
use scc_backend.Borrow.Rows.{Extra, find_borrow, is_active_of}
use scc_backend.Borrow.Consistency.Lookup.{find_borrow-own}
use scc_backend.Borrow.Consistency.Moves.{Moved}
use scc_backend.Borrow.Effects.{
  IsActiveActor, ensure_active_actor_rule, load_borrow_state_rule, lock_planning_office_rule,
  release_reservations_rule, update_borrow_status_rule, insert_audit_rule, after_status,
  after_release, after_audit,
}
use scc_backend.Borrow.Lifecycle.{cancel_tx, audit_of}

module _ (id : String) (actor : Actor) (reason : Option String) (now : ℕ) where
  abbrev pub after_cancel : BorrowRow → String → Db → Db
  after_cancel row audit_id db =
      after_audit audit_id
        (audit_of row.id "CANCEL" row.status BorrowStatus.cancelled actor reason now)
        (after_status row.id row.status BorrowStatus.cancelled now Extra.nothing
          (after_release row.id now db))

  -- What the transaction has done, from `before` to `after`, when it commits.
  pub record CancelDone (before after : Db) : Type 0 where
    pub row : BorrowRow
    pub audit_id : String
    pub found : find_borrow id before.borrows ≡ some row
    pub actor_active : IsActiveActor actor before
    pub authorized : can_cancel row actor ≡ true
    pub from : (row.status ≡ BorrowStatus.requested) ⊎ (row.status ≡ BorrowStatus.approved)
    pub releases : count_where (is_active_of row.id) before.borrow_covers ≡ row.requested_qty
    pub result : after ≡ after_cancel row audit_id before

  either :
      (status : BorrowStatus)
      → (not (status_eq status BorrowStatus.requested)
          && not (status_eq status BorrowStatus.approved))
        ≡ false
      → (status ≡ BorrowStatus.requested) ⊎ (status ≡ BorrowStatus.approved)
  either status h = elim (Bool-cases (status_eq status BorrowStatus.requested)) [
    | inl e ↦ inl (eq_of_status_eq _ _ e)
    | inr e ↦ inr (eq_of_status_eq _ _ (ground arith))
  ]

  pub cancel_tx_rule :
      (c : Env) (s : Session) → On (λ _ t. CancelDone s.db t.db) (cancel_tx id actor reason now c s)
  unfolding cancel_tx
  cancel_tx_rule c s = On-after _ c (ensure_active_actor_rule actor c s) λ _ t p.
      On-after _ c (load_borrow_state_rule id c t) λ row t1 p1.
        On-after _ c (refuse_if_rule _ _ c t1) λ _ t2 p2.
          On-after _ c (refuse_if_rule _ _ c t2) λ _ t3 p3.
            On-after _ c (lock_planning_office_rule _ c t3) λ _ t4 p4.
              On-after _ c (release_reservations_rule _ _ now c t4) λ _ t5 p5.
                On-after _ c (update_borrow_status_rule _ _ _ now _ c t5) λ _ t6 p6.
                  On-weaken (insert_audit_rule _ c t6) λ _ t7 p7.
                    let start : t4.db ≡ s.db = cc in
                    record {
                      row = row;
                      audit_id = p7.0;
                      found = cc;
                      actor_active = p.1;
                      authorized = ground arith;
                      from = either row.status p3.0;
                      releases = rw start at p5.0;
                      result = rw (p7.1, p6.1, p5.1, start);
                    }

  pub CancelDone-Moved :
      {before after : Db} (d : CancelDone before after)
      → Moved d.row BorrowStatus.cancelled before after
  unfolding is_valid_transition
  CancelDone-Moved {before} {after} d = record {
    now = now;
    extra = Extra.nothing;
    entry_id = d.audit_id;
    entry = audit_of d.row.id "CANCEL" d.row.status BorrowStatus.cancelled actor reason now;
    found = find_borrow-own id d.row before.borrows d.found;
    allowed = ground arith;
    borrows = rw d.result;
    links = inl (ground arith, refl, rw d.result);
    audited = rw d.result;
    entry_borrow = refl;
    entry_from = refl;
    entry_to = refl;
    outbox = inl (rw d.result);
  }
