-- ===== src/Borrow/Detail.antt =====
-- domain/borrow/entity.go and persistence/borrow_repo.go: the borrow as the API shows it.
pub mod Covers
use scc_backend.Base.{
  ℕ, String, not, ◌&&◌, ◌||◌, Option, none, some, List, [], ◌∷◌, map, str_eq, take_where,
  select_where, order_by,
}
use scc_backend.Domain.Cover.{CoverStatus}
use scc_backend.Domain.Borrow.{BorrowStatus}
use scc_backend.Store.{Db, Office, Cover, BorrowRow, BorrowCover}
use scc_backend.Effect.{Action, ◌>>=◌, pure, query, ask}
use scc_backend.Borrow.Rows.{find_borrow, find_cover}

pub record OfficeSummary : Type 0 where
  pub id : String
  pub name : String
  pub work_hub_id : String

pub record CoverSummary : Type 0 where
  pub id : String
  pub asset_code : String
  pub status : CoverStatus
  pub owner_office_id : String
  pub current_office_id : String

pub record Borrow : Type 0 where
  pub id : String
  pub status : BorrowStatus
  pub borrower_office : OfficeSummary
  pub lender_office : OfficeSummary
  pub requested_qty : ℕ
  pub covers : List CoverSummary
  pub return_date : ℕ
  pub note : Option String
  pub created_by_id : String
  pub approved_by_id : Option String
  pub activated_by_id : Option String
  pub returned_by_id : Option String
  pub created_at : ℕ
  pub updated_at : ℕ
  pub activated_at : Option ℕ
  pub returned_at : Option ℕ

abbrev find_office : String → List Office → Option Office
find_office id = take_where (λ o. str_eq o.id id)

abbrev office_summary : Office → OfficeSummary
office_summary o = record { id = o.id; name = o.name; work_hub_id = o.work_hub_id }

-- One row of `canonicalBorrowQuery`: the borrow joined with both of its offices.
pub record CanonicalRow : Type 0 where
  pub row : BorrowRow
  pub borrower : Office
  pub lender : Office

abbrev join_lender : BorrowRow → Office → Option Office → Option CanonicalRow
join_lender r b none = none
join_lender r b (some l) = some (record { row = r; borrower = b; lender = l })

abbrev join_borrower : BorrowRow → Option Office → Option Office → Option CanonicalRow
join_borrower r none l = none
join_borrower r (some b) l = join_lender r b l

-- `canonicalBorrowQuery`, of one row
abbrev pub canonical_row : Db → BorrowRow → Option CanonicalRow
canonical_row db r =
    join_borrower r (find_office r.borrower_office_id db.offices)
      (find_office r.lender_office_id db.offices)

abbrev pub canonical_rows : Db → List BorrowRow → List CanonicalRow
canonical_rows db [] = []
canonical_rows db (r ∷ rs) = elim (canonical_row db r) [
  | none ↦ canonical_rows db rs
  | some x ↦ x ∷ canonical_rows db rs
]

-- `borrowFromCanonicalRow`
unfoldable pub borrow_from_canonical_row : CanonicalRow → List CoverSummary → Borrow
borrow_from_canonical_row x covers = record {
  id = x.row.id;
  status = x.row.status;
  borrower_office = office_summary x.borrower;
  lender_office = office_summary x.lender;
  requested_qty = x.row.requested_qty;
  covers = covers;
  return_date = x.row.return_date;
  note = x.row.note;
  created_by_id = x.row.created_by_id;
  approved_by_id = x.row.approved_by_id;
  activated_by_id = x.row.activated_by_id;
  returned_by_id = x.row.returned_by_id;
  created_at = x.row.created_at;
  updated_at = x.row.updated_at;
  activated_at = x.row.activated_at;
  returned_at = x.row.returned_at;
}

abbrev pub cover_summary : Cover → CoverSummary
cover_summary c = record {
  id = c.id;
  asset_code = c.asset_code;
  status = c.status;
  owner_office_id = c.owner_office_id;
  current_office_id = c.current_office_id;
}

-- borrow_covers JOIN covers ON c.id = bc.cover_id
abbrev pub joined_covers : List Cover → List BorrowCover → List Cover
joined_covers covers [] = []
joined_covers covers (l ∷ ls) = elim (find_cover l.cover_id covers) [
  | none ↦ joined_covers covers ls
  | some c ↦ c ∷ joined_covers covers ls
]

-- `listCoverSummaries`
unfoldable pub list_cover_summaries : String → Action (List CoverSummary)
list_cover_summaries borrow_id = do
  before ← ask (λ c. c.before)
  query (λ db. map cover_summary (
      order_by
        (λ a b.
          (before a.asset_code b.asset_code && not (str_eq a.asset_code b.asset_code))
          || (str_eq a.asset_code b.asset_code && before a.id b.id))
        (joined_covers db.covers
          (select_where (λ l. str_eq l.borrow_id borrow_id) db.borrow_covers))))

abbrev pub canonical_of : Db → Option BorrowRow → Option CanonicalRow
canonical_of db none = none
canonical_of db (some r) = canonical_row db r

-- The borrow with its covers, of a row that was found.
unfoldable pub with_covers : String → Option CanonicalRow → Action (Option Borrow)
unfolding borrow_from_canonical_row list_cover_summaries
with_covers id none = pure none
with_covers id (some x) =
    list_cover_summaries id >>= λ covers. pure (some (borrow_from_canonical_row x covers))

-- `GormBorrowRepo.FindByID`: `none` is the nil borrow of a missing row.
unfoldable pub find_by_id : String → Action (Option Borrow)
unfolding with_covers
find_by_id id = do
  found ← query (λ db. canonical_of db (find_borrow id db.borrows))
  with_covers id found
