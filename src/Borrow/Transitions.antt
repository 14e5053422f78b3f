-- ===== src/Borrow/Transitions.antt =====
-- The transitions of lifecycle.go once their transactions have committed: who made them, from which
-- status, and what has moved.
use scc_backend.Base.{ℕ, ◌≡◌, ap, ◌⊎◌, inl, inr, String, Option, some, true, false, arith, subst}
use scc_backend.Domain.Borrow.{BorrowStatus, eq_of_status_eq}
use scc_backend.Store.{Db, BorrowRow}
use scc_backend.Effect.{Env, Session, Error, ok}
use scc_backend.Effect.Ensures.{On-holds}
use scc_backend.Borrow.Actor.{Actor, can_cancel}
use scc_backend.Borrow.Rows.{find_borrow}
use scc_backend.Borrow.Effects.{IsActiveActor, ordered_cover_ids}
use scc_backend.Borrow.Lifecycle.{SimpleStateChange, simple_state_tx, cancel_tx, return_tx}
use scc_backend.Borrow.Lifecycle.Simple.{
  SimpleDone, ReleasesFit, simple_state_tx_rule, SimpleDone-Moved,
}
use scc_backend.Borrow.Lifecycle.Cancel.{CancelDone, cancel_tx_rule, CancelDone-Moved}
use scc_backend.Borrow.Lifecycle.Overdue.{OverdueDone-Moved}
use scc_backend.Borrow.Lifecycle.Return.{IsStuck, Escalated, ReturnDone, return_tx_rule}
use scc_backend.Borrow.Consistency.Lookup.{with_status_id, find_borrow-own}
use scc_backend.Borrow.Consistency.Moves.{Moved, found_after}

-- When a simple change (`Approve`, `Reject`) whose release of reservations fits its two statuses
-- commits, the actor is active and authorized, the borrow had the change's first status, and it has
-- moved to the second by an allowed transition that the audit trail records; no other borrow has
-- changed.
pub simple_state_tx-Moved :
    (change : SimpleStateChange) (now : ℕ) (c : Env) (s t : Session)
    → ReleasesFit change now
    → simple_state_tx change now c s ≡ (ok tt, t)
    → (row : BorrowRow) × (find_borrow change.id s.db.borrows ≡ some row)
      × IsActiveActor change.actor s.db
      × (change.authorize row change.actor ≡ true)
      × (row.status ≡ change.from)
      × Moved row change.to s.db t.db
simple_state_tx-Moved change now c s t fit h =
    let d : SimpleDone change now s.db t.db =
      On-holds _ _ (simple_state_tx_rule change now c s) h in
    (
      d.row,
      d.found,
      d.actor_active,
      d.authorized,
      eq_of_status_eq _ _ d.from,
      SimpleDone-Moved change now d fit,
    )

-- When the transaction of `Cancel` commits, the actor is active and may cancel the borrow, the
-- borrow was requested or approved, and it has moved to cancelled, with its reservations released;
-- no other borrow has changed, and no cover has.
pub cancel_tx-Moved :
    (id : String) (actor : Actor) (reason : Option String) (now : ℕ) (c : Env) (s t : Session)
    → cancel_tx id actor reason now c s ≡ (ok tt, t)
    → (row : BorrowRow) × (find_borrow id s.db.borrows ≡ some row)
      × IsActiveActor actor s.db
      × (can_cancel row actor ≡ true)
      × ((row.status ≡ BorrowStatus.requested) ⊎ (row.status ≡ BorrowStatus.approved))
      × Moved row BorrowStatus.cancelled s.db t.db
      × (t.db.covers ≡ s.db.covers)
cancel_tx-Moved id actor reason now c s t h =
    let d : CancelDone id actor reason now s.db t.db =
      On-holds _ _ (cancel_tx_rule id actor reason now c s) h in
    (
      d.row,
      d.found,
      d.actor_active,
      d.authorized,
      d.from,
      CancelDone-Moved id actor reason now d,
      ap (λ (x : Db). x.covers) d.result,
    )

-- The status of a borrow after an escalation.
Escalated-status :
    (row : BorrowRow) (now : ℕ) (before after : Db)
    → find_borrow row.id before.borrows ≡ some row
    → (row.status ≡ BorrowStatus.on_loan) ⊎ (row.status ≡ BorrowStatus.overdue)
    → Escalated row now before after
    → (r : BorrowRow) × (find_borrow row.id after.borrows ≡ some r)
      × (r.status ≡ BorrowStatus.overdue)
      × (after.covers ≡ before.covers)
Escalated-status row now before after found from (inl (on_loan, d)) =
    let m : Moved row BorrowStatus.overdue before after =
      OverdueDone-Moved row now d found on_loan in
    (
      _,
      found_after m,
      (with_status_id BorrowStatus.overdue m.now m.extra row).1,
      ap (λ (x : Db). x.covers) d.result,
    )
Escalated-status row now before after found (inl on_loan) (inr (other, same)) =
    absurd (ground arith)
Escalated-status row now before after found (inr overdue) (inr (other, same)) =
    (row, rw same found, overdue, ap (λ (x : Db). x.covers) same)

-- When the transaction of `Return` commits with an error to return, that error is a conflict, one of
-- the linked covers is installed or has an open installation, the borrow is overdue now, and no
-- cover has changed.
pub return_tx-escalates :
    (id : String) (actor : Actor) (reason : Option String) (now : ℕ) (c : Env) (s t : Session)
    (e : Error)
    → return_tx id actor reason now c s ≡ (ok (some e), t)
    → (e ≡ Error.conflict)
      × ((row : BorrowRow) × (find_borrow id s.db.borrows ≡ some row)
          × IsStuck s.db (ordered_cover_ids c.before row.id false s.db)
          × ((r : BorrowRow) × (find_borrow row.id t.db.borrows ≡ some r)
              × (r.status ≡ BorrowStatus.overdue)
              × (t.db.covers ≡ s.db.covers)))
return_tx-escalates id actor reason now c s t e h =
    let d : ReturnDone actor reason now id c.before (some e) s.db t.db =
      On-holds _ _ (return_tx_rule actor reason now id c s) h in
    (
      d.ends.0,
      (
        d.row,
        d.found,
        subst (IsStuck s.db) d.linked d.ends.1,
        Escalated-status d.row now s.db t.db (find_borrow-own id d.row s.db.borrows d.found) d.from
            d.ends.2,
      ),
    )
