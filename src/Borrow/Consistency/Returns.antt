-- ===== src/Borrow/Consistency/Returns.antt =====
-- `Return` and `MarkOverdue` of lifecycle.go against the consistency of the tables.
use scc_backend.Base.{
  ℕ, ◌≡◌, refl, sym, ap, subst, ◌∙◌, String, Bool, Option, none, some, List, [], ◌∷◌, ◌⊎◌, inl, inr,
  arith,
}
use scc_backend.Domain.Borrow.{BorrowStatus, eq_of_status_eq, is_valid_transition}
use scc_backend.Store.{Db, BorrowRow}
use scc_backend.Effect.{Error, Env, Session}
use scc_backend.Effect.Ensures.{On, value, On-after, query_rule, ask_rule}
use scc_backend.Borrow.Actor.{Actor}
use scc_backend.Borrow.Rows.{Extra, find_borrow}
use scc_backend.Borrow.Lifecycle.{mark_all_overdue, mark_overdue_tx, audit_overdue}
use scc_backend.Borrow.Lifecycle.Overdue.{OverdueDone, mark_one_overdue_rule, told_overdue}
use scc_backend.Borrow.Lifecycle.Return.{Escalated, ReturnEnds, ReturnDone, TakenBack-Moved}
use scc_backend.Borrow.Consistency.{IsConsistent}
use scc_backend.Borrow.Consistency.Lookup.{find_borrow-id, find_borrow-own, find_single}
use scc_backend.Borrow.Consistency.Moves.{Moved, Moved-IsConsistent}

module _ (row : BorrowRow) (now : ℕ) {before after : Db}
    (d : OverdueDone row now before after) where
  -- The row that is on loan now, wherever `row` was read.
  overdue_Moved :
      (r : BorrowRow)
      → find_borrow row.id before.borrows ≡ some r
      → r.status ≡ BorrowStatus.on_loan
      → Moved r BorrowStatus.overdue before after
  unfolding is_valid_transition
  overdue_Moved r found from =
      let own : r.id ≡ row.id = find_borrow-id row.id r before.borrows found in
      record {
        now = now;
        extra = Extra.nothing;
        entry_id = d.audit_id;
        entry = audit_overdue row.id now;
        found = find_borrow-own row.id r before.borrows found;
        allowed = ground (arith, from);
        borrows = rw (d.result, from, own);
        links = inr (ground (arith, from), rw d.result);
        audited = rw d.result;
        entry_borrow = sym own;
        entry_from = ap some (sym from);
        entry_to = refl;
        outbox = inr (told_overdue row now d.outbox_id, rw d.result);
      }

  OverdueDone-IsConsistent : IsConsistent before → IsConsistent after
  OverdueDone-IsConsistent c =
      let here =
        find_single row.id BorrowStatus.on_loan before.borrows d.single (c.unique row.id) in
      Moved-IsConsistent (overdue_Moved here.0 here.1 (eq_of_status_eq _ _ here.2)) c

Escalated-IsConsistent :
    (row : BorrowRow) (now : ℕ) {before after : Db}
    → Escalated row now before after
    → IsConsistent before
    → IsConsistent after
Escalated-IsConsistent row now (inl (from, d)) c = OverdueDone-IsConsistent row now d c
Escalated-IsConsistent row now (inr (other, same)) c = subst IsConsistent (sym same) c

module _ (actor : Actor) (reason : Option String) (now : ℕ) where
  ReturnEnds-IsConsistent :
      (row : BorrowRow) (ids : List String) (x : Option Error) {before after : Db}
      → ReturnEnds actor reason now row ids x before after
      → find_borrow row.id before.borrows ≡ some row
      → (row.status ≡ BorrowStatus.on_loan) ⊎ (row.status ≡ BorrowStatus.overdue)
      → IsConsistent before
      → IsConsistent after
  ReturnEnds-IsConsistent row ids none (free, back) found from c =
      Moved-IsConsistent (TakenBack-Moved actor reason now row ids back found from) c
  ReturnEnds-IsConsistent row ids (some e) (is_conflict, stuck, rest) found from c =
      Escalated-IsConsistent row now rest c

  pub ReturnDone-IsConsistent :
      {id : String} {collate : String → String → Bool} {x : Option Error} {before after : Db}
      → ReturnDone actor reason now id collate x before after
      → IsConsistent before
      → IsConsistent after
  ReturnDone-IsConsistent {id} {before} d c =
      ReturnEnds-IsConsistent d.row d.ids _ d.ends (find_borrow-own id d.row before.borrows d.found)
        d.from c

mark_all_overdue_rule :
    (now : ℕ) (rows : List BorrowRow) (c : Env) (s : Session)
    → IsConsistent s.db
    → On (λ _ t. IsConsistent t.db) (mark_all_overdue now rows c s)
unfolding mark_all_overdue
mark_all_overdue_rule now [] c s h = value h
mark_all_overdue_rule now (row ∷ rows) c s h =
    On-after _ c (mark_one_overdue_rule row now c s)
      λ _ t d. mark_all_overdue_rule now rows c t (OverdueDone-IsConsistent row now d h)

pub mark_overdue_tx_rule :
    (now : ℕ) (c : Env) (s : Session)
    → IsConsistent s.db
    → On (λ _ t. IsConsistent t.db) (mark_overdue_tx now c s)
unfolding mark_overdue_tx
mark_overdue_tx_rule now c s h = On-after _ c (ask_rule (λ x. x.before) c s) λ before t p.
    On-after _ c (query_rule _ c t) λ rows t1 p1.
      mark_all_overdue_rule now rows c t1
        (subst IsConsistent (sym (p1.1 ∙ ap (λ (x : Session). x.db) p.1)) h)
