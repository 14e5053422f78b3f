-- ===== src/Borrow/Rows.antt =====
-- The statements of lifecycle.go on borrows, reservations and covers.
use scc_backend.Base.{
  ℕ, String, Bool, not, ◌&&◌, Option, some, List, map, str_eq, ◌==◌, ltb, is_some, count_where,
  take_where, select_where, update_where, order_by, if◌then◌else◌,
}
use scc_backend.Domain.Borrow.{BorrowStatus, status_eq}
use scc_backend.Store.{BorrowRow, BorrowCover, Cover}
use scc_backend.Effect.{
  Error, Action, ◌>>=◌, pure, refuse_if, query, or_fail, update_rows, statement, ask,
}

-- WHERE id = ?
abbrev pub find_borrow : String → List BorrowRow → Option BorrowRow
find_borrow id = take_where (λ r. str_eq r.id id)

abbrev pub find_cover : String → List Cover → Option Cover
find_cover id = take_where (λ r. str_eq r.id id)

-- `lockPlanningOffice`: the advisory lock is one statement on PostgreSQL and touches no row.
unfoldable pub lock_planning_office : String → Action (Unit {0})
lock_planning_office office_id c s = (if c.is_postgres then statement else pure tt) c s

-- `loadBorrowStateForUpdate`
unfoldable pub load_borrow_state : String → Action BorrowRow
load_borrow_state id = do
  found ← query (λ db. find_borrow id db.borrows)
  or_fail found Error.not_found

-- The columns that an operation sets beside the status: the map `extra`.
pub data Extra : Type 0 where
  nothing : Extra
  approved_by : String → Extra
  activated returned : ℕ → String → Extra

abbrev pub apply_extra : Extra → BorrowRow → BorrowRow
apply_extra Extra.nothing r = r
apply_extra (Extra.approved_by who) r = record r { approved_by_id = some who }
apply_extra (Extra.activated at who) r = record r {
  activated_at = some at;
  activated_by_id = some who;
}
apply_extra (Extra.returned at who) r = record r {
  returned_at = some at;
  returned_by_id = some who;
}

-- WHERE id = ? AND status = ?
abbrev pub has_status : String → BorrowStatus → BorrowRow → Bool
has_status id from r = str_eq r.id id && status_eq r.status from

abbrev pub with_status : BorrowStatus → ℕ → Extra → BorrowRow → BorrowRow
with_status to now extra r = apply_extra extra (record r { status = to; updated_at = now })

-- `updateBorrowStatusTx`
unfoldable pub update_borrow_status :
    String → BorrowStatus → BorrowStatus → ℕ → Extra → Action (Unit {0})
update_borrow_status id from to now extra = do
  affected ←
      update_rows (λ db. count_where (has_status id from) db.borrows)
        (λ db. record db {
          borrows = update_where (has_status id from) (with_status to now extra) db.borrows;
        })
  refuse_if (not (affected == 1)) Error.state_invalid

-- WHERE borrow_id = ? AND released_at IS NULL
abbrev pub is_active_of : String → BorrowCover → Bool
is_active_of borrow_id l = str_eq l.borrow_id borrow_id && not (is_some l.released_at)

abbrev pub released : ℕ → BorrowCover → BorrowCover
released now l = record l { released_at = some now }

-- `releaseReservationsTx`
unfoldable pub release_reservations : String → ℕ → ℕ → Action (Unit {0})
release_reservations borrow_id expected now = do
  affected ←
      update_rows (λ db. count_where (is_active_of borrow_id) db.borrow_covers)
        (λ db. record db {
          borrow_covers = update_where (is_active_of borrow_id) (released now) db.borrow_covers;
        })
  refuse_if (not (affected == expected)) Error.conflict

abbrev pub is_link_of : String → Bool → BorrowCover → Bool
is_link_of borrow_id active_only l =
    if active_only then is_active_of borrow_id l else str_eq l.borrow_id borrow_id

-- `reservationCoverIDsTx`
unfoldable pub reservation_cover_ids : String → Bool → Action (List String)
reservation_cover_ids borrow_id active_only = do
  before ← ask (λ c. c.before)
  query (λ db.
      map (λ l. l.cover_id)
        (order_by (λ a b. before a.cover_id b.cover_id)
          (select_where (is_link_of borrow_id active_only) db.borrow_covers)))

-- `lockCoverStateTx`
unfoldable pub lock_cover_state : String → Action Cover
lock_cover_state cover_id = do
  found ← query (λ db. find_cover cover_id db.covers)
  or_fail found Error.conflict

-- `hasOpenInstallationTx`
unfoldable pub has_open_installation : String → Action Bool
has_open_installation cover_id = query (λ db.
    ltb 0 (
      count_where (λ i. str_eq i.cover_id cover_id && not (is_some i.removed_at)) db.installations))
