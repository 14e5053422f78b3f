-- ===== src/Borrow/Consistency.antt =====
-- When the tables of the borrow service agree: the check that
-- db/migrations/20260710030000_phase2_borrow.sql makes of each borrow's reservations
-- (scc_check_borrow_reservation_consistency), its unique index on active covers, and the audit
-- trail as the history of each status.
pub mod Lookup
pub mod Moves
pub mod Steps
pub mod Calls
pub mod Returns
use scc_backend.Base.{
  ℕ, ◌≤◌, ◌≡◌, String, Bool, true, false, Option, none, some, List, [], ◌∷◌, str_eq, count_where,
  if◌then◌else◌,
}
use scc_backend.Domain.Borrow.{BorrowStatus, is_valid_transition, status_eq}
use scc_backend.Store.{Db, BorrowRow, BorrowCover, BorrowAudit, OutboxRow}
use scc_backend.Borrow.Rows.{find_borrow, is_active_of}
use scc_backend.Borrow.Capacity.{active_reservations}
use scc_backend.Borrow.Events.{has_key}

-- status IN ('REQUESTED', 'APPROVED')
abbrev pub holds_reservations : BorrowStatus → Bool
holds_reservations BorrowStatus.requested = true
holds_reservations BorrowStatus.approved = true
holds_reservations _ = false

abbrev pub total_links : String → List BorrowCover → ℕ
total_links id = count_where (λ l. str_eq l.borrow_id id)

abbrev pub active_links : String → List BorrowCover → ℕ
active_links id = count_where (is_active_of id)

-- A borrow has as many links as it requested, all active while it holds its reservations and none
-- after that. An id that is no borrow has no link.
abbrev pub LinksAgree : Option BorrowRow → ℕ → ℕ → Type 0
LinksAgree none total active = total ≡ 0
LinksAgree (some r) total active =
    (total ≡ r.requested_qty)
    × (active ≡ (if holds_reservations r.status then r.requested_qty else 0))

-- The status that the newest audit entry of a borrow moved it to.
abbrev pub last_status : String → List BorrowAudit → Option BorrowStatus
last_status id [] = none
last_status id (a ∷ rest) = if str_eq a.borrow_id id then some a.to_status else last_status id rest

-- A borrow begins as requested, and moves along the allowed transitions.
abbrev pub is_legal : Option BorrowStatus → BorrowStatus → Bool
is_legal none to = status_eq to BorrowStatus.requested
is_legal (some from) to = is_valid_transition from to

-- Each entry starts from the status that the entry before it left.
abbrev pub Chained : List BorrowAudit → Type 0
Chained [] = Unit
Chained (a ∷ rest) =
    (a.from_status ≡ last_status a.borrow_id rest)
    × (is_legal a.from_status a.to_status ≡ true)
    × Chained rest

abbrev pub status_of : Option BorrowRow → Option BorrowStatus
status_of none = none
status_of (some r) = some r.status

pub record IsConsistent (db : Db) : Type 0 where
  pub unique : (id : String) → count_where (λ r. str_eq r.id id) db.borrows ≤ 1
  pub links :
      (id : String)
      → LinksAgree
          (find_borrow id db.borrows)
          (total_links id db.borrow_covers)
          (active_links id db.borrow_covers)
  pub exclusive : (cover_id : String) → active_reservations cover_id db.borrow_covers ≤ 1
  pub recorded :
      (id : String) → last_status id db.borrow_audit_events ≡ status_of (find_borrow id db.borrows)
  pub chained : Chained db.borrow_audit_events
  pub sent_once : (key : String) → count_where (has_key key) db.outbox ≤ 1
