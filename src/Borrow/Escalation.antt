-- ===== src/Borrow/Escalation.antt =====
-- The loop of `MarkOverdue` (lifecycle.go) against the borrows that are due.
use scc_backend.Base.{
  ℕ, ◌≤◌, ◌≡◌, refl, String, Bool, not, ◌&&◌, List, [], ◌∷◌, str_eq, str_eq_refl, ltb, count_where,
  count_where-order_by, select_where, update_where, arith, eq_iff,
}
use scc_backend.Domain.Borrow.{BorrowStatus}
use scc_backend.Store.{BorrowRow}
use scc_backend.Effect.{Env, Session, ok}
use scc_backend.Effect.Ensures.{On, value, On-after, On-holds, query_rule, ask_rule}
use scc_backend.Borrow.Rows.{Extra, has_status, with_status}
use scc_backend.Borrow.Lifecycle.{is_overdue, mark_all_overdue, mark_overdue_tx}
use scc_backend.Borrow.Lifecycle.Overdue.{mark_one_overdue_rule}

module _ (now : ℕ) where
  abbrev left_out : List BorrowRow → BorrowRow → Bool
  left_out rows r = is_overdue now r && not (ltb 0 (count_where (λ x. str_eq x.id r.id) rows))

  -- A listed borrow that has been marked is overdue no more.
  left_out-mark :
      (row : BorrowRow) (rest bs : List BorrowRow)
      → count_where (left_out (row ∷ rest)) bs ≡ 0
      → count_where (left_out rest) (
          update_where
            (has_status row.id BorrowStatus.on_loan)
            (with_status BorrowStatus.overdue now Extra.nothing)
            bs)
        ≡ 0
  left_out-mark row rest [] h = refl
  left_out-mark row rest (b ∷ bs) h =
      ground (arith, eq_iff row.id b.id, eq_iff b.id row.id, left_out-mark row rest bs)

  mark_all_overdue_rule :
      (rows : List BorrowRow) (c : Env) (s : Session)
      → count_where (left_out rows) s.db.borrows ≡ 0
      → On (λ _ t. count_where (is_overdue now) t.db.borrows ≡ 0) (mark_all_overdue now rows c s)
  unfolding mark_all_overdue
  mark_all_overdue_rule [] c s h = value (rest_of s.db.borrows h)
    where
      rest_of :
          (bs : List BorrowRow)
          → count_where (left_out []) bs ≡ 0
          → count_where (is_overdue now) bs ≡ 0
      rest_of [] h = refl
      rest_of (b ∷ bs) h = ground (arith, rest_of bs)
  mark_all_overdue_rule (row ∷ rows) c s h =
      On-after _ c (mark_one_overdue_rule row now c s) λ _ t d.
        mark_all_overdue_rule rows c t (rw d.result (left_out-mark row rows s.db.borrows h))

  -- The rows that were selected are all that are overdue.
  left_out-select :
      (rows bs : List BorrowRow)
      → ((i : String)
          → count_where (λ x. str_eq x.id i) (select_where (is_overdue now) bs)
            ≤ count_where (λ x. str_eq x.id i) rows)
      → count_where (left_out rows) bs ≡ 0
  left_out-select rows [] h = refl
  left_out-select rows (b ∷ bs) h =
      ground (arith, h b.id, str_eq_refl b.id, left_out-select rows bs (λ i. ground (arith, h i)))

  mark_overdue_tx_rule :
      (c : Env) (s : Session)
      → On (λ _ t. count_where (is_overdue now) t.db.borrows ≡ 0) (mark_overdue_tx now c s)
  unfolding mark_overdue_tx
  mark_overdue_tx_rule c s = On-after _ c (ask_rule (λ x. x.before) c s) λ before t p.
      On-after _ c (query_rule _ c t) λ rows t1 p1. mark_all_overdue_rule rows c t1 (
        left_out-select rows t1.db.borrows λ i.
          rw (p1.0, p1.1)
            (omega (
              arith,
              count_where-order_by (λ x. str_eq x.id i) (λ a b. before a.id b.id)
                  (select_where (is_overdue now) t.db.borrows),
            )))

  -- When the transaction of `MarkOverdue` commits, no borrow on loan is past its return date at the
  -- given time.
  pub mark_overdue_tx-leaves_none :
      (c : Env) (s t : Session)
      → mark_overdue_tx now c s ≡ (ok tt, t)
      → count_where (is_overdue now) t.db.borrows ≡ 0
  mark_overdue_tx-leaves_none c s t h = On-holds tt t (mark_overdue_tx_rule c s) h
