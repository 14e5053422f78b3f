-- ===== src/Borrow/Lifecycle/Activate.antt =====
-- What `Activate` has done when its transaction commits.
use scc_backend.Base.{
  ℕ, ◌≡◌, refl, sym, ap, inl, inr, String, Bool, true, Option, some, List, length, count_where,
  arith, All,
}
use scc_backend.Domain.Borrow.{BorrowStatus, eq_of_status_eq, is_valid_transition}
use scc_backend.Store.{Db, BorrowRow, OutboxRow}
use scc_backend.Effect.{Env, Session}
use scc_backend.Effect.Ensures.{On, On-after, On-weaken, refuse_if_rule}
use scc_backend.Borrow.Actor.{Actor, can_support_or_lender_exec}
use scc_backend.Borrow.Rows.{Extra, find_borrow, is_active_of}
use scc_backend.Borrow.Consistency.Lookup.{find_borrow-own}
use scc_backend.Borrow.Consistency.Moves.{Moved}
use scc_backend.Borrow.Effects.{
  IsActiveActor, ensure_active_actor_rule, load_borrow_state_rule, lock_planning_office_rule,
  release_reservations_rule, update_borrow_status_rule, insert_audit_rule,
  enqueue_creator_notification_rule, ordered_cover_ids, reservation_cover_ids_rule, after_status,
  after_release, after_audit, after_enqueue, creator_row,
}
use scc_backend.Borrow.Lifecycle.{activate_tx, hand_over, audit_of}
use scc_backend.Borrow.Lifecycle.Covers.{
  after_moving, move_covers_rule, IsFreeAt, check_at_lender_rule,
}

module _ (actor : Actor) (reason : Option String) (now : ℕ) where
  abbrev pub told_activated : BorrowRow → String → OutboxRow
  told_activated row id =
      creator_row id row "BORROW_ACTIVATED" "ผู้ให้ยืมยืนยันส่งมอบฉนวนแล้ว" "activated" now

  abbrev pub after_activate : BorrowRow → List String → String → String → Db → Db
  after_activate row ids audit_id outbox_id db = after_enqueue (told_activated row outbox_id) (
      after_audit audit_id
        (audit_of row.id "ACTIVATE" BorrowStatus.approved BorrowStatus.on_loan actor reason now)
        (after_status row.id BorrowStatus.approved BorrowStatus.on_loan now
          (Extra.activated now actor.id)
          (after_release row.id now
            (after_moving row.lender_office_id row.borrower_office_id now ids db))))

  -- What the steps after the guards have done.
  pub record HandedOver (row : BorrowRow) (ids : List String) (before after : Db) : Type 0 where
    pub audit_id : String
    pub outbox_id : String
    pub free : All (IsFreeAt row.lender_office_id row.lender_office_id before) ids
    pub releases : count_where (is_active_of row.id) before.borrow_covers ≡ row.requested_qty
    pub result : after ≡ after_activate row ids audit_id outbox_id before

  hand_over_rule :
      (row : BorrowRow) (ids : List String) (c : Env) (s : Session)
      → On (λ _ t. HandedOver row ids s.db t.db) (hand_over actor reason now row ids c s)
  unfolding hand_over
  hand_over_rule row ids c s = On-after _ c (check_at_lender_rule row ids c s) λ _ t p.
      On-after _ c (move_covers_rule _ _ now ids c t) λ _ t1 p1.
        On-after _ c (release_reservations_rule _ _ now c t1) λ _ t2 p2.
          On-after _ c (update_borrow_status_rule _ _ _ now _ c t2) λ _ t3 p3.
            On-after _ c (insert_audit_rule _ c t3) λ _ t4 p4.
              On-weaken (enqueue_creator_notification_rule row _ _ _ now c t4) λ _ t5 p5. record {
                audit_id = p4.0;
                outbox_id = p5.0;
                free = p.1;
                releases = rw (p1, p.0) at p2.0;
                result = rw (p5.1, p4.1, p3.1, p2.1, p1, p.0);
              }

  module _ (id : String) (collate : String → String → Bool) where
    -- What the transaction has done, from `before` to `after`, when it commits.
    pub record ActivateDone (before after : Db) : Type 0 where
      pub row : BorrowRow
      pub ids : List String
      pub found : find_borrow id before.borrows ≡ some row
      pub actor_active : IsActiveActor actor before
      pub authorized : can_support_or_lender_exec row actor ≡ true
      pub from : row.status ≡ BorrowStatus.approved
      pub reserved : ids ≡ ordered_cover_ids collate row.id true before
      pub all_reserved : length ids ≡ row.requested_qty
      pub done : HandedOver row ids before after

  pub activate_tx_rule :
      (id : String) (c : Env) (s : Session)
      → On (λ _ t. ActivateDone id c.before s.db t.db) (activate_tx id actor reason now c s)
  unfolding activate_tx
  activate_tx_rule id c s = On-after _ c (ensure_active_actor_rule actor c s) λ _ t p.
      On-after _ c (load_borrow_state_rule id c t) λ row t1 p1.
        On-after _ c (refuse_if_rule _ _ c t1) λ _ t2 p2.
          On-after _ c (refuse_if_rule _ _ c t2) λ _ t3 p3.
            On-after _ c (lock_planning_office_rule _ c t3) λ _ t4 p4.
              On-after _ c (reservation_cover_ids_rule row.id true c t4) λ ids t5 p5.
                On-after _ c (refuse_if_rule _ _ c t5) λ _ t6 p6.
                  On-weaken (hand_over_rule row ids c t6) λ _ t7 p7.
                    let start : t4.db ≡ s.db = cc in
                    let here : t6.db ≡ s.db = cc in
                    record {
                      row = row;
                      ids = ids;
                      found = cc;
                      actor_active = p.1;
                      authorized = ground arith;
                      from = eq_of_status_eq _ _ (ground arith);
                      reserved = rw start at p5.0;
                      all_reserved = ground arith;
                      done = rw here at p7;
                    }

  pub ActivateDone-Moved :
      {id : String} {collate : String → String → Bool} {before after : Db}
      (d : ActivateDone id collate before after)
      → Moved d.row BorrowStatus.on_loan before after
  unfolding is_valid_transition
  ActivateDone-Moved {id} {collate} {before} {after} d = record {
    now = now;
    extra = Extra.activated now actor.id;
    entry_id = d.done.audit_id;
    entry =
        audit_of d.row.id "ACTIVATE" BorrowStatus.approved BorrowStatus.on_loan actor reason now;
    found = find_borrow-own id d.row before.borrows d.found;
    allowed = ground (arith, d.from);
    borrows = rw (d.done.result, d.from);
    links = inl (ground (arith, d.from), refl, rw d.done.result);
    audited = rw d.done.result;
    entry_borrow = refl;
    entry_from = ap some (sym d.from);
    entry_to = refl;
    outbox = inr (told_activated d.row d.done.outbox_id, rw d.done.result);
  }
