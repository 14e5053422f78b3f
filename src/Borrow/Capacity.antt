-- ===== src/Borrow/Capacity.antt =====
-- service.go: what a lender can lend, and which exact covers a new borrow gets.
use scc_backend.Base.{
  ℕ, ◌+◌, ◌-◌, String, Bool, false, not, ◌&&◌, ◌||◌, Option, none, some, List, map, str_eq, ltb,
  is_some, count_where, select_where, order_by, take, if◌then◌else◌,
}
use scc_backend.Domain.Cover.{CoverStatus}
use scc_backend.Domain.Cover
use scc_backend.Store.{Db, BorrowRow, BorrowCover, Cover, Installation}
use scc_backend.Effect.{Error, Action, ◌>>=◌, ◌>>◌, pure, refuse_if, query, or_fail, ask}
use scc_backend.Discrepancy.Shortfall.{reserved_planned}
use scc_backend.Borrow.Rows.{find_borrow, find_cover}

pub record CapacitySnapshot : Type 0 where
  pub owned_in_stock : ℕ
  pub reserved_planned : ℕ
  pub reserved_borrow : ℕ
  pub eligible : ℕ
  pub borrowable_capacity : ℕ

-- owner_office_id = ? AND current_office_id = ? AND status = 'IN_STOCK'
abbrev pub is_owned_stock : String → Cover → Bool
is_owned_stock office r =
    str_eq r.owner_office_id office
    && str_eq r.current_office_id office
    && Cover.status_eq r.status CoverStatus.in_stock

abbrev lends_from : String → Option BorrowRow → Bool
lends_from office none = false
lends_from office (some b) = str_eq b.lender_office_id office

abbrev pub is_active : BorrowCover → Bool
is_active l = not (is_some l.released_at)

-- borrow_covers JOIN borrows … WHERE b.lender_office_id = ? AND bc.released_at IS NULL
abbrev pub is_reserved_at : String → List BorrowRow → BorrowCover → Bool
is_reserved_at office borrows l = lends_from office (find_borrow l.borrow_id borrows) && is_active l

abbrev pub open_installations : String → List Installation → ℕ
open_installations cover_id =
    count_where (λ i. str_eq i.cover_id cover_id && not (is_some i.removed_at))

-- WHERE cover_id = ? AND released_at IS NULL
abbrev pub reserves : String → BorrowCover → Bool
reserves cover_id l = str_eq l.cover_id cover_id && is_active l

abbrev pub active_reservations : String → List BorrowCover → ℕ
active_reservations cover_id = count_where (reserves cover_id)

-- Owned stock with no open installation and no active reservation.
abbrev pub is_eligible : String → Db → Cover → Bool
is_eligible office db r =
    is_owned_stock office r
    && not (ltb 0 (open_installations r.id db.installations))
    && not (ltb 0 (active_reservations r.id db.borrow_covers))

-- `formula`, cut off at 0, and bounded by the exact eligible covers.
abbrev pub capacity_formula : ℕ → ℕ → ℕ → ℕ → ℕ
capacity_formula owned planned borrowed eligible =
    let formula = if ltb owned (planned + borrowed) then 0 else owned - planned - borrowed in
    if ltb eligible formula then eligible else formula

-- `capacitySnapshotTx`
unfoldable pub capacity_snapshot : String → Action CapacitySnapshot
capacity_snapshot office = do
  owned ← query (λ db. count_where (is_owned_stock office) db.covers)
  planned ← query (reserved_planned office)
  borrowed ← query (λ db. count_where (is_reserved_at office db.borrows) db.borrow_covers)
  eligible ← query (λ db. count_where (is_eligible office db) db.covers)
  pure (record {
    owned_in_stock = owned;
    reserved_planned = planned;
    reserved_borrow = borrowed;
    eligible = eligible;
    borrowable_capacity = capacity_formula owned planned borrowed eligible;
  })

-- `selectEligibleCoverIDsForUpdate`
unfoldable pub select_eligible_cover_ids : String → ℕ → Action (List String)
select_eligible_cover_ids office quantity = do
  before ← ask (λ c. c.before)
  query (λ db.
      map (λ r. r.id)
        (take quantity (
          order_by
            (λ a b.
              (before a.asset_code b.asset_code && not (str_eq a.asset_code b.asset_code))
              || (str_eq a.asset_code b.asset_code && before a.id b.id))
            (select_where (is_eligible office db) db.covers))))

-- `ensureCoverEligibleTx`
unfoldable pub ensure_cover_eligible : String → String → Action (Unit {0})
ensure_cover_eligible cover_id lender_office_id = do
  found ← query (λ db. find_cover cover_id db.covers)
  row ← or_fail found Error.conflict
  refuse_if
      (not (Cover.status_eq row.status CoverStatus.in_stock)
        || not (str_eq row.owner_office_id lender_office_id)
        || not (str_eq row.current_office_id lender_office_id))
      Error.conflict
  open_count ← query (λ db. open_installations cover_id db.installations)
  refuse_if (ltb 0 open_count) Error.conflict
  reserved ← query (λ db. active_reservations cover_id db.borrow_covers)
  refuse_if (ltb 0 reserved) Error.conflict
