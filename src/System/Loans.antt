-- ===== src/System/Loans.antt =====
-- The transactions of the borrow service against the invariant of the stock.
use scc_backend.Base.{
  ℕ, ◌+◌, ◌≤◌, ◌≡◌, refl, ◌∙◌, inl, inr, String, Bool, Option, none, some, List, [], ◌∷◌, str_eq,
  eq_iff, count_where, update_where, count_where-update_where, All, Bool-cases, arith,
}
use scc_backend.Domain.Cover.{CoverStatus}
use scc_backend.Store.{Db, Cover, BorrowRow, BorrowCover, Installation}
use scc_backend.Effect.{Error, Env, Session}
use scc_backend.Effect.Ensures.{On, value, On-after, On-weaken, query_rule, ask_rule}
use scc_backend.Borrow.Actor.{Actor}
use scc_backend.Borrow.Rows.{is_active_of, released}
use scc_backend.Borrow.Capacity.{active_reservations, open_installations}
use scc_backend.Borrow.Calls.{Steps}
use scc_backend.Borrow.Consistency.Steps.{Reserved, done, reserve, free_cover}
use scc_backend.Borrow.Create.Reserve.{IsLendable}
use scc_backend.Borrow.Create.Done.{create_tx_rule}
use scc_backend.Borrow.Lifecycle.{
  is_stock_of, moved_to, mark_all_overdue, mark_overdue_tx, SimpleStateChange,
}
use scc_backend.Borrow.Lifecycle.Covers.{move_all}
use scc_backend.Borrow.Lifecycle.Simple.{SimpleDone, simple_state_tx_rule}
use scc_backend.Borrow.Lifecycle.Cancel.{CancelDone, cancel_tx_rule}
use scc_backend.Borrow.Lifecycle.Activate.{ActivateDone, activate_tx_rule}
use scc_backend.Borrow.Lifecycle.Overdue.{OverdueDone, mark_one_overdue_rule}
use scc_backend.Borrow.Lifecycle.Return.{Escalated, TakenBack, ReturnEnds, return_tx_rule}
use scc_backend.WorkOrder.Stock.{IsSound, SameStock-IsSound, count_in, count_covers}
use scc_backend.WorkOrder.Stock.Only.{All-map}
use scc_backend.WorkOrder.Rows.{is_cover_in}

-- Loans: installations stay, covers keep their ids and statuses, reservations only end.
pub record Lent (before after : Db) : Type 0 where
  pub counted : (id : String) → count_covers id after.covers ≡ count_covers id before.covers
  pub installed :
      (id : String)
      → count_in id CoverStatus.installed after.covers
        ≡ count_in id CoverStatus.installed before.covers
  pub installations : after.installations ≡ before.installations
  pub reserved :
      (id : String)
      → active_reservations id after.borrow_covers ≤ active_reservations id before.borrow_covers

pub Lent-IsSound : {before after : Db} → Lent before after → IsSound before → IsSound after
Lent-IsSound {before} {after} k h = record {
  single_cover = λ id. rw (k.counted id) (h.single_cover id);
  single_installation = λ id. rw k.installations (h.single_installation id);
  ordered = rw k.installations h.ordered;
  agrees = λ id. rw (k.installations, k.installed id) (h.agrees id);
  exclusive = λ id. rw k.installations (ground (arith, k.reserved id, h.exclusive id));
}

count_where-move_all :
    (q : Cover → Bool) (from to : String) (now : ℕ)
    → ((r : Cover) → q (moved_to to now r) ≡ q r)
    → (ids : List String) (covers : List Cover)
    → count_where q (move_all from to now ids covers) ≡ count_where q covers
count_where-move_all q from to now keeps [] covers = refl
count_where-move_all q from to now keeps (i ∷ ids) covers =
    count_where-move_all q from to now keeps ids _
    ∙ count_where-update_where (is_stock_of i from) q (moved_to to now) keeps covers

active_reservations-released :
    (borrow_id : String) (now : ℕ) (id : String) (links : List BorrowCover)
    → active_reservations id (update_where (is_active_of borrow_id) (released now) links)
      ≤ active_reservations id links
active_reservations-released borrow_id now id [] = omega arith
active_reservations-released borrow_id now id (l ∷ links) =
    ground (arith, active_reservations-released borrow_id now id links)

SimpleDone-Lent :
    (change : SimpleStateChange) (now : ℕ) {before after : Db}
    → SimpleDone change now before after
    → Lent before after
SimpleDone-Lent change now {before} {after} d = record {
  counted = λ id. rw d.result refl;
  installed = λ id. rw d.result refl;
  installations = rw d.result refl;
  reserved = λ id. rw d.result (elim (Bool-cases change.releases_reservations) [
    | inl e ↦ rw e (active_reservations-released d.row.id now id before.borrow_covers)
    | inr e ↦ rw e (omega arith)
  ]);
}

CancelDone-Lent :
    (id : String) (actor : Actor) (reason : Option String) (now : ℕ) {before after : Db}
    → CancelDone id actor reason now before after
    → Lent before after
CancelDone-Lent id actor reason now {before} {after} d = record {
  counted = λ i. rw d.result refl;
  installed = λ i. rw d.result refl;
  installations = rw d.result refl;
  reserved = λ i. rw d.result (active_reservations-released d.row.id now i before.borrow_covers);
}

OverdueDone-Lent :
    (row : BorrowRow) (now : ℕ) {before after : Db}
    → OverdueDone row now before after
    → Lent before after
OverdueDone-Lent row now {before} {after} d = record {
  counted = λ id. rw d.result refl;
  installed = λ id. rw d.result refl;
  installations = rw d.result refl;
  reserved = λ id. rw d.result (omega arith);
}

module _ (actor : Actor) (reason : Option String) (now : ℕ) where
  ActivateDone-Lent :
      {id : String} {collate : String → String → Bool} {before after : Db}
      → ActivateDone actor reason now id collate before after
      → Lent before after
  ActivateDone-Lent {before} {after} d = record {
    counted = λ id.
        rw d.done.result
          (count_where-move_all (λ r. str_eq r.id id) _ _ now (λ r. refl) d.ids before.covers);
    installed = λ id. rw d.done.result (
        count_where-move_all (is_cover_in id CoverStatus.installed) _ _ now (λ r. refl) d.ids
          before.covers);
    installations = rw d.done.result refl;
    reserved =
        λ id. rw d.done.result (active_reservations-released d.row.id now id before.borrow_covers);
  }

  TakenBack-Lent :
      (row : BorrowRow) (ids : List String) {before after : Db}
      → TakenBack actor reason now row ids before after
      → Lent before after
  TakenBack-Lent row ids {before} {after} d = record {
    counted = λ id.
        rw (d.result, d.recorded.0)
          (count_where-move_all (λ r. str_eq r.id id) _ _ now (λ r. refl) ids before.covers);
    installed = λ id.
        rw (d.result, d.recorded.0)
          (count_where-move_all (is_cover_in id CoverStatus.installed) _ _ now (λ r. refl) ids
            before.covers);
    installations = rw (d.result, d.recorded.0) refl;
    reserved = λ id. rw (d.result, d.recorded.0) (omega arith);
  }

  Escalated-IsSound :
      (row : BorrowRow) {before after : Db}
      → Escalated row now before after
      → IsSound before
      → IsSound after
  Escalated-IsSound row (inl (from, d)) h = Lent-IsSound (OverdueDone-Lent row now d) h
  Escalated-IsSound row {before} {after} (inr (other, same)) h = rw same h

  ReturnEnds-IsSound :
      (row : BorrowRow) (ids : List String) (x : Option Error) {before after : Db}
      → ReturnEnds actor reason now row ids x before after
      → IsSound before
      → IsSound after
  ReturnEnds-IsSound row ids none (free, back) h = Lent-IsSound (TakenBack-Lent row ids back) h
  ReturnEnds-IsSound row ids (some e) (is_conflict, stuck, rest) h = Escalated-IsSound row rest h

mark_all_overdue_rule :
    (now : ℕ) (rows : List BorrowRow) (c : Env) (s : Session)
    → IsSound s.db
    → On (λ _ t. IsSound t.db) (mark_all_overdue now rows c s)
unfolding mark_all_overdue
mark_all_overdue_rule now [] c s h = value h
mark_all_overdue_rule now (row ∷ rows) c s h =
    On-after _ c (mark_one_overdue_rule row now c s)
      λ _ t d. mark_all_overdue_rule now rows c t (Lent-IsSound (OverdueDone-Lent row now d) h)

mark_overdue_tx_rule :
    (now : ℕ) (c : Env) (s : Session)
    → IsSound s.db
    → On (λ _ t. IsSound t.db) (mark_overdue_tx now c s)
unfolding mark_overdue_tx
mark_overdue_tx_rule now c s h = On-after _ c (ask_rule (λ x. x.before) c s) λ before t p.
    On-after _ c (query_rule _ c t)
      λ rows t1 p1. let same : t1.db ≡ s.db = cc in mark_all_overdue_rule now rows c t1 (rw same h)

-- New reservations of covers without an open installation.
Reserved-exclusive :
    (borrow_id : String) (now : ℕ) (installations : List Installation) {ids : List String}
    {before after : List BorrowCover}
    → Reserved borrow_id now ids before after
    → All (λ i. open_installations i installations ≡ 0) ids
    → ((id : String) → active_reservations id before + open_installations id installations ≤ 1)
    → (id : String) → active_reservations id after + open_installations id installations ≤ 1
Reserved-exclusive borrow_id now installations done closed h = h
Reserved-exclusive borrow_id now installations (reserve {before = links} i link_id free r) closed
      h =
    Reserved-exclusive borrow_id now installations r closed.1 λ id.
      ground (arith, h id, eq_iff i id, closed.0, free_cover borrow_id now i link_id links free)

CreateDone-IsSound :
    {before after : Db} (borrow_id : String) (ids : List String) (now : ℕ) (lender : String)
    → All (IsLendable lender before) ids
    → Reserved borrow_id now ids before.borrow_covers after.borrow_covers
    → after.covers ≡ before.covers
    → after.installations ≡ before.installations
    → IsSound before
    → IsSound after
CreateDone-IsSound {before} {after} borrow_id ids now lender lendable links covers installations h =
    record {
      single_cover = λ id. rw covers (h.single_cover id);
      single_installation = λ id. rw installations (h.single_installation id);
      ordered = rw installations h.ordered;
      agrees = λ id. rw (covers, installations) (h.agrees id);
      exclusive = λ id. rw installations (
          Reserved-exclusive borrow_id now before.installations links
            (All-map ids (λ i p. p.3) lendable) h.exclusive id);
    }

-- The transactions of the borrow service and its deliveries keep the stock sound.
pub IsSound-steps : Steps IsSound
IsSound-steps = record {
  notifications_kept = λ rows db.
      SameStock-IsSound (record { covers = refl; installations = refl; borrow_covers = refl });
  deliveries_kept = λ id now db.
      SameStock-IsSound (record { covers = refl; installations = refl; borrow_covers = refl });
  simple_kept = λ change fit now c s h.
      On-weaken (simple_state_tx_rule change now c s)
        λ _ t d. Lent-IsSound (SimpleDone-Lent change now d) h;
  cancel_kept = λ id actor r now c s h.
      On-weaken (cancel_tx_rule id actor r now c s)
        λ _ t d. Lent-IsSound (CancelDone-Lent id actor r now d) h;
  activate_kept = λ id actor r now c s h.
      On-weaken (activate_tx_rule actor r now id c s)
        λ _ t d. Lent-IsSound (ActivateDone-Lent actor r now d) h;
  return_kept = λ id actor r now c s h.
      On-weaken (return_tx_rule actor r now id c s)
        λ x t d. ReturnEnds-IsSound actor r now d.row d.ids x d.ends h;
  overdue_kept = λ now c s h. mark_overdue_tx_rule now c s h;
  create_kept = λ p borrower note borrow_id now c s h.
      On-weaken (create_tx_rule p borrower note borrow_id now c s) λ _ t d.
        CreateDone-IsSound borrow_id d.ids d.created.now p.lender_office_id d.lendable
          d.created.links d.covers_kept d.installations_kept h;
}
