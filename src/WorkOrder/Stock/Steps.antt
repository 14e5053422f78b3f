-- ===== src/WorkOrder/Stock/Steps.antt =====
-- The writes of the work order service against the invariant of the stock.
use scc_backend.Base.{
  ℕ, ◌+◌, ◌≤◌, ◌≡◌, refl, String, Bool, true, false, not, ◌&&◌, List, ◌∷◌, str_eq, eq_iff, is_some,
  count_where, count_where-update_where, update_where, delete_where, All, arith,
}
use scc_backend.Domain.Cover.{CoverStatus}
use scc_backend.Store.{Db, Cover, Installation}
use scc_backend.Borrow.Capacity.{active_reservations, open_installations}
use scc_backend.WorkOrder.Rows.{
  has_installation_id, is_live, is_cover_in, with_cover_status, with_installation,
}
use scc_backend.WorkOrder.Stock.{IsSound, count_in, is_ordered}
use scc_backend.WorkOrder.Stock.Only.{Only}
use scc_backend.WorkOrder.Stock.Lists.{
  one_if, count_where-update_only, count_in-mark_installed, count_in-mark_in_stock,
  count_where-delete_where, count_where-delete_other, All-delete_where, All-update_where,
}

abbrev pub is_open : String → Installation → Bool
is_open id i = str_eq i.cover_id id && not (is_some i.removed_at)

-- UPDATE installations … WHERE id = …
abbrev pub with_row : Installation → List Installation → List Installation
with_row j = update_where (has_installation_id j.id) (with_installation j)

abbrev pub with_cover : String → CoverStatus → CoverStatus → ℕ → List Cover → List Cover
with_cover id from to now = update_where (is_cover_in id from) (with_cover_status to now)

module _ (i j : Installation) (db : Db) (same : j.id ≡ i.id) (o : Only i db.installations)
    (h : IsSound db) where
  with_row-single :
      (id : String) → count_where (has_installation_id id) (with_row j db.installations) ≤ 1
  with_row-single id =
      rw
        (count_where-update_where (has_installation_id j.id) (has_installation_id id)
          (with_installation j) (λ x. refl) db.installations)
        (h.single_installation id)

  -- The one row written counts as its new columns say.
  with_row-count :
      (q : Installation → Bool)
      → count_where q (with_row j db.installations) + one_if (q i) 1
        ≡ count_where q db.installations + one_if (q (with_installation j i)) 1
  with_row-count q =
      let all =
        count_where-update_only (has_installation_id i.id) q (with_installation j) i
          db.installations o.only in
      rw same (rw o.once at all)

  with_row-ordered :
      is_ordered j ≡ true → All (λ r. is_ordered r ≡ true) (with_row j db.installations)
  with_row-ordered e =
      All-update_where (λ r. is_ordered r ≡ true) (has_installation_id j.id) (with_installation j)
        db.installations (λ r q p. e) h.ordered

  -- A row that stays open or not, and live or not.
  pub rewrite-IsSound :
      is_some j.installed_at ≡ is_some i.installed_at
      → is_some j.removed_at ≡ is_some i.removed_at
      → is_ordered i ≡ true
      → IsSound (record db { installations = with_row j db.installations })
  rewrite-IsSound e f g = record {
    single_cover = h.single_cover;
    single_installation = with_row-single;
    ordered = with_row-ordered (rw (e, f) g);
    agrees = λ id. ground (arith, with_row-count (is_live id), h.agrees id, e, f);
    exclusive = λ id. ground (arith, with_row-count (is_open id), h.exclusive id, f);
  }

  -- A draft that is committed, with its cover.
  pub commit-IsSound :
      (now : ℕ)
      → is_some j.installed_at ≡ true
      → is_some j.removed_at ≡ false
      → is_some i.installed_at ≡ false
      → is_some i.removed_at ≡ false
      → count_in i.cover_id CoverStatus.in_stock db.covers ≡ 1
      → IsSound (record db {
        installations = with_row j db.installations;
        covers = with_cover i.cover_id CoverStatus.in_stock CoverStatus.installed now db.covers;
      })
  commit-IsSound now e f g k one = record {
    single_cover = λ id.
        rw
          (count_where-update_where (is_cover_in i.cover_id CoverStatus.in_stock)
            (λ r. str_eq r.id id) (with_cover_status CoverStatus.installed now) (λ x. refl)
            db.covers)
          (h.single_cover id);
    single_installation = with_row-single;
    ordered = with_row-ordered (rw e refl);
    agrees = λ id.
        let counted = rw one at (count_in-mark_installed i.cover_id now id db.covers) in
        ground (arith, with_row-count (is_live id), h.agrees id, counted, e, f, g);
    exclusive = λ id. ground (arith, with_row-count (is_open id), h.exclusive id, f, k);
  }

  -- A cover that is removed.
  pub remove-IsSound :
      (now : ℕ)
      → is_some j.removed_at ≡ true
      → is_some j.installed_at ≡ true
      → is_some i.installed_at ≡ true
      → is_some i.removed_at ≡ false
      → count_in i.cover_id CoverStatus.installed db.covers ≡ 1
      → IsSound (record db {
        installations = with_row j db.installations;
        covers = with_cover i.cover_id CoverStatus.installed CoverStatus.in_stock now db.covers;
      })
  remove-IsSound now e f g k one = record {
    single_cover = λ id.
        rw
          (count_where-update_where (is_cover_in i.cover_id CoverStatus.installed)
            (λ r. str_eq r.id id) (with_cover_status CoverStatus.in_stock now) (λ x. refl)
            db.covers)
          (h.single_cover id);
    single_installation = with_row-single;
    ordered = with_row-ordered (rw f refl);
    agrees = λ id.
        let counted = rw one at (count_in-mark_in_stock i.cover_id now id db.covers) in
        ground (arith, with_row-count (is_live id), h.agrees id, counted, e, g, k);
    exclusive = λ id. ground (arith, with_row-count (is_open id), h.exclusive id, e, k);
  }

-- A new draft of a cover that is neither reserved nor in an open installation.
pub draft-IsSound :
    (i : Installation) (db : Db)
    → is_some i.installed_at ≡ false
    → is_some i.removed_at ≡ false
    → count_where (has_installation_id i.id) db.installations ≡ 0
    → active_reservations i.cover_id db.borrow_covers ≡ 0
    → open_installations i.cover_id db.installations ≡ 0
    → IsSound db
    → IsSound (record db { installations = i ∷ db.installations })
draft-IsSound i db e f fresh free closed h = record {
  single_cover = h.single_cover;
  single_installation = λ id. ground (arith, h.single_installation id, fresh, eq_iff i.id id);
  ordered = (rw (e, f) refl, h.ordered);
  agrees = λ id. ground (arith, h.agrees id, e);
  exclusive = λ id. ground (arith, h.exclusive id, eq_iff i.cover_id id, free, closed);
}

-- Drafts that are deleted.
pub delete-IsSound :
    (p : Installation → Bool) (db : Db)
    → ((i : Installation) → p i ≡ true → is_some i.installed_at ≡ false)
    → IsSound db
    → IsSound (record db { installations = delete_where p db.installations })
delete-IsSound p db drafts h = record {
  single_cover = h.single_cover;
  single_installation = λ id. ground (
    arith,
    count_where-delete_where p (has_installation_id id) db.installations,
    h.single_installation id,
  );
  ordered = All-delete_where (λ r. is_ordered r ≡ true) p db.installations h.ordered;
  agrees = λ id.
      rw
        (count_where-delete_other p (is_live id) db.installations
          (λ i e. ground (arith, drafts i e)))
        (h.agrees id);
  exclusive = λ id.
      ground (arith, count_where-delete_where p (is_open id) db.installations, h.exclusive id);
}
