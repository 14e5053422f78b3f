-- ===== src/Borrow/Consistency/Lookup.antt =====
-- How a status update and a release show in the lookups and the counts that consistency is about.
use scc_backend.Base.{
  ℕ, ◌≤◌, ◌≡◌, refl, String, true, some, List, [], ◌∷◌, str_eq, count_where, update_where,
  map_where, take_where-update_where, ap, sym, subst, Bool-cases, inl, inr, if◌then◌else◌, arith,
  eq_iff,
}
use scc_backend.Domain.Borrow.{BorrowStatus, status_eq}
use scc_backend.Store.{BorrowRow, BorrowCover, OutboxRow}
use scc_backend.Borrow.Rows.{Extra, find_borrow, has_status, with_status, is_active_of, released}
use scc_backend.Borrow.Capacity.{active_reservations}
use scc_backend.Borrow.Events.{has_key, add_outbox}

pub find_borrow-id :
    (id : String) (r : BorrowRow) (rows : List BorrowRow) → find_borrow id rows ≡ some r → r.id ≡ id
find_borrow-id id r [] h = cc
find_borrow-id id r (x ∷ rows) h = ground (arith, eq_iff x.id id, find_borrow-id id r rows)

pub find_borrow-own :
    (id : String) (r : BorrowRow) (rows : List BorrowRow)
    → find_borrow id rows ≡ some r
    → find_borrow r.id rows ≡ some r
find_borrow-own id r rows h =
    subst (λ (j : String). find_borrow j rows ≡ some r) (sym (find_borrow-id id r rows h)) h

-- A status update keeps the columns that identify a borrow and its terms.
pub with_status_id :
    (to : BorrowStatus) (now : ℕ) (extra : Extra) (r : BorrowRow)
    → ((with_status to now extra r).id ≡ r.id)
      × ((with_status to now extra r).status ≡ to)
      × ((with_status to now extra r).requested_qty ≡ r.requested_qty)
      × ((with_status to now extra r).lender_office_id ≡ r.lender_office_id)
      × ((with_status to now extra r).borrower_office_id ≡ r.borrower_office_id)
with_status_id to now Extra.nothing r = (refl, refl, refl, refl, refl)
with_status_id to now (Extra.approved_by who) r = (refl, refl, refl, refl, refl)
with_status_id to now (Extra.activated at who) r = (refl, refl, refl, refl, refl)
with_status_id to now (Extra.returned at who) r = (refl, refl, refl, refl, refl)

module _ (i : String) (from to : BorrowStatus) (now : ℕ) (extra : Extra) where
  pub find_borrow-update :
      (j : String) (rows : List BorrowRow)
      → find_borrow j (update_where (has_status i from) (with_status to now extra) rows)
        ≡ map_where (has_status i from) (with_status to now extra) (find_borrow j rows)
  find_borrow-update j =
      take_where-update_where (has_status i from) (λ r. str_eq r.id j) (with_status to now extra)
        (λ r. ap (λ (x : String). str_eq x j) (with_status_id to now extra r).0)

module _ (i : String) (now : ℕ) where
  pub total_links-release :
      (j : String) (ls : List BorrowCover)
      → count_where (λ l. str_eq l.borrow_id j) (update_where (is_active_of i) (released now) ls)
        ≡ count_where (λ l. str_eq l.borrow_id j) ls
  total_links-release j [] = refl
  total_links-release j (l ∷ ls) = ground (arith, total_links-release j ls)

  pub active_links-release :
      (j : String) (ls : List BorrowCover)
      → count_where (is_active_of j) (update_where (is_active_of i) (released now) ls)
        ≡ (if str_eq i j then 0 else count_where (is_active_of j) ls)
  active_links-release j [] = ground arith
  active_links-release j (l ∷ ls) =
      ground
        (arith, eq_iff i j, eq_iff l.borrow_id i, eq_iff l.borrow_id j, active_links-release j ls)

  pub active_reservations-release :
      (cover_id : String) (ls : List BorrowCover)
      → active_reservations cover_id (update_where (is_active_of i) (released now) ls)
        ≤ active_reservations cover_id ls
  active_reservations-release cover_id [] = omega arith
  active_reservations-release cover_id (l ∷ ls) =
      ground (arith, active_reservations-release cover_id ls)

-- The unique index on the dedup key.
pub add_outbox-once :
    (o : OutboxRow) (rows : List OutboxRow) (key : String)
    → count_where (has_key key) rows ≤ 1
    → count_where (has_key key) (add_outbox o rows) ≤ 1
add_outbox-once o rows key h = ground (arith, eq_iff o.dedup_key key)

status-le-total :
    (id : String) (from : BorrowStatus) (rows : List BorrowRow)
    → count_where (has_status id from) rows ≤ count_where (λ r. str_eq r.id id) rows
status-le-total id from [] = omega arith
status-le-total id from (r ∷ rows) = ground (arith, status-le-total id from rows)

-- The one row with this id and status is the one that is found by the id, when ids are unique.
pub find_single :
    (id : String) (from : BorrowStatus) (rows : List BorrowRow)
    → count_where (has_status id from) rows ≡ 1
    → count_where (λ r. str_eq r.id id) rows ≤ 1
    → (r : BorrowRow) × (find_borrow id rows ≡ some r) × (status_eq r.status from ≡ true)
find_single id from [] h u = absurd (omega (arith, h))
find_single id from (r ∷ rows) h u = elim (Bool-cases (str_eq r.id id)) [
  | inl e ↦ (r, rw e, ground (arith, status-le-total id from rows))
  | inr e ↦
      let rest = find_single id from rows (ground arith) (ground arith) in
      (rest.0, rw e rest.1, rest.2)
]
