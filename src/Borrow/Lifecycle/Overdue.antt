-- ===== src/Borrow/Lifecycle/Overdue.antt =====
-- What `markOneOverdueTx` has done when it succeeds.
use scc_backend.Base.{ℕ, ◌≡◌, refl, ap, sym, inr, String, some, arith, count_where}
use scc_backend.Domain.Borrow.{BorrowStatus, is_valid_transition}
use scc_backend.Store.{Db, BorrowRow, OutboxRow}
use scc_backend.Effect.{Env, Session}
use scc_backend.Effect.Ensures.{On, On-after, On-weaken}
use scc_backend.Borrow.Rows.{Extra, find_borrow, has_status}
use scc_backend.Borrow.Consistency.Moves.{Moved}
use scc_backend.Borrow.Effects.{
  update_borrow_status_rule, insert_audit_rule, enqueue_creator_notification_rule, after_status,
  after_audit, after_enqueue, creator_row,
}
use scc_backend.Borrow.Lifecycle.{mark_one_overdue, audit_overdue}

module _ (row : BorrowRow) (now : ℕ) where
  abbrev pub told_overdue : String → OutboxRow
  told_overdue id = creator_row id row "BORROW_OVERDUE" "ใบยืมฉนวนเกินกำหนดคืน" "overdue" now

  abbrev pub after_overdue : String → String → Db → Db
  after_overdue audit_id outbox_id db = after_enqueue (told_overdue outbox_id) (
      after_audit audit_id (audit_overdue row.id now)
        (after_status row.id BorrowStatus.on_loan BorrowStatus.overdue now Extra.nothing db))

  -- What has been done, from `before` to `after`.
  pub record OverdueDone (before after : Db) : Type 0 where
    pub audit_id : String
    pub outbox_id : String
    pub single : count_where (has_status row.id BorrowStatus.on_loan) before.borrows ≡ 1
    pub result : after ≡ after_overdue audit_id outbox_id before

  pub mark_one_overdue_rule :
      (c : Env) (s : Session) → On (λ _ t. OverdueDone s.db t.db) (mark_one_overdue row now c s)
  unfolding mark_one_overdue
  mark_one_overdue_rule c s = On-after _ c (update_borrow_status_rule _ _ _ now _ c s) λ _ t p.
      On-after _ c (insert_audit_rule _ c t) λ _ t1 p1.
        On-weaken (enqueue_creator_notification_rule row _ _ _ now c t1) λ _ t2 p2. record {
          audit_id = p1.0;
          outbox_id = p2.0;
          single = p.0;
          result = rw (p2.1, p1.1, p.1);
        }

  pub OverdueDone-Moved :
      {before after : Db} (d : OverdueDone before after)
      → find_borrow row.id before.borrows ≡ some row
      → row.status ≡ BorrowStatus.on_loan
      → Moved row BorrowStatus.overdue before after
  unfolding is_valid_transition
  OverdueDone-Moved {before} {after} d found from = record {
    now = now;
    extra = Extra.nothing;
    entry_id = d.audit_id;
    entry = audit_overdue row.id now;
    found = found;
    allowed = ground (arith, from);
    borrows = rw (d.result, from);
    links = inr (ground (arith, from), rw d.result);
    audited = rw d.result;
    entry_borrow = refl;
    entry_from = ap some (sym from);
    entry_to = refl;
    outbox = inr (told_overdue d.outbox_id, rw d.result);
  }
