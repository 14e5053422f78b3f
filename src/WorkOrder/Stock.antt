-- ===== src/WorkOrder/Stock.antt =====
-- The installations of work orders against the covers and the reservations of borrows: the
-- invariant that the work order service keeps.
pub mod Only
pub mod Lists
pub mod Steps
pub mod Scans
pub mod Submits
pub mod Removes
pub mod Plans
pub mod Dues
use scc_backend.Base.{
  ℕ, ◌+◌, ◌≤◌, ◌≡◌, refl, subst, String, Bool, true, not, ◌||◌, List, str_eq, is_some, count_where,
  All, arith,
}
use scc_backend.Domain.Cover.{CoverStatus}
use scc_backend.Store.{Db, Cover, Installation}
use scc_backend.Borrow.Capacity.{active_reservations, open_installations}
use scc_backend.WorkOrder.Rows.{has_installation_id, is_live, is_cover_in}

abbrev pub live_installations : String → List Installation → ℕ
live_installations id = count_where (is_live id)

abbrev pub count_in : String → CoverStatus → List Cover → ℕ
count_in id status = count_where (is_cover_in id status)

abbrev pub count_covers : String → List Cover → ℕ
count_covers id = count_where (λ r. str_eq r.id id)

-- Nothing is removed that has not been installed.
abbrev pub is_ordered : Installation → Bool
is_ordered i = is_some i.installed_at || not (is_some i.removed_at)

pub record IsSound (db : Db) : Type 0 where
  pub single_cover : (id : String) → count_covers id db.covers ≤ 1
  pub single_installation :
      (id : String) → count_where (has_installation_id id) db.installations ≤ 1
  pub ordered : All (λ i. is_ordered i ≡ true) db.installations
  pub agrees :
      (id : String)
      → live_installations id db.installations ≡ count_in id CoverStatus.installed db.covers
  pub exclusive :
      (id : String)
      → active_reservations id db.borrow_covers + open_installations id db.installations ≤ 1

-- Tables with the same covers, installations and reservations.
pub record SameStock (before after : Db) : Type 0 where
  pub covers : after.covers ≡ before.covers
  pub installations : after.installations ≡ before.installations
  pub borrow_covers : after.borrow_covers ≡ before.borrow_covers

pub SameStock-IsSound :
    {before after : Db} → SameStock before after → IsSound before → IsSound after
SameStock-IsSound {before} {after} k h = record {
  single_cover = λ id. rw k.covers (h.single_cover id);
  single_installation = λ id. rw k.installations (h.single_installation id);
  ordered = rw k.installations h.ordered;
  agrees = λ id. rw (k.installations, k.covers) (h.agrees id);
  exclusive = λ id. rw (k.installations, k.borrow_covers) (h.exclusive id);
}
