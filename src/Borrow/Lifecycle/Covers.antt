-- ===== src/Borrow/Lifecycle/Covers.antt =====
-- Handing covers over: the loop `move_covers` against what happens to each single cover.
use scc_backend.Base.{
  ℕ, ◌≡◌, refl, ap, ◌∙◌, String, Bool, true, false, ◌&&◌, ◌||◌, Option, none, some, List, [], ◌∷◌,
  str_eq, update_where, map_where, take_where-update_where, arith, eq_iff, All, inl, inr,
  Option-cases,
}
use scc_backend.Domain.Cover.{CoverStatus}
use scc_backend.Domain.Cover
use scc_backend.Store.{Db, Cover, BorrowRow}
use scc_backend.Effect.{Env, Session}
use scc_backend.Effect.Ensures.{On, value, On-after, On-weaken, refuse_if_rule, update_rows_rule}
use scc_backend.Borrow.Rows.{find_cover}
use scc_backend.Borrow.Capacity.{open_installations}
use scc_backend.Borrow.Effects.{lock_cover_state_rule, has_open_installation_rule}
use scc_backend.Borrow.Lifecycle.{is_at, is_stock_of, moved_to, move_covers, check_at_lender}

abbrev pub contains : String → List String → Bool
contains id [] = false
contains id (x ∷ xs) = str_eq x id || contains id xs

module _ (from to : String) (now : ℕ) where
  abbrev pub move_all : List String → List Cover → List Cover
  move_all [] covers = covers
  move_all (i ∷ ids) covers =
      move_all ids (update_where (is_stock_of i from) (moved_to to now) covers)

  abbrev pub after_moving : List String → Db → Db
  after_moving ids db = record db { covers = move_all ids db.covers }

  pub move_covers_rule :
      (ids : List String) (c : Env) (s : Session)
      → On (λ _ t. t.db ≡ after_moving ids s.db) (move_covers from to now ids c s)
  unfolding move_covers
  move_covers_rule [] c s = value refl
  move_covers_rule (i ∷ ids) c s = On-after _ c (update_rows_rule _ _ c s) λ n t p.
      On-after _ c (refuse_if_rule _ _ c t)
        λ _ t1 p1. On-weaken (move_covers_rule ids c t1) λ _ t2 p2. rw (p2, p1.1, p.1)

  -- One cover after the loop: handed over if it was named and in stock at `from`.
  abbrev pub moved_one : List String → Option Cover → Option Cover
  moved_one ids =
      map_where
        (λ r.
          contains r.id ids
          && (str_eq r.current_office_id from && Cover.status_eq r.status CoverStatus.in_stock))
        (moved_to to now)

  moved_one-step :
      (i : String) (ids : List String) (r : Cover)
      → moved_one ids (map_where (is_stock_of i from) (moved_to to now) (some r))
        ≡ moved_one (i ∷ ids) (some r)
  moved_one-step i ids r = ground (arith, eq_iff r.id i, eq_iff i r.id)

  moved_one-map :
      (i : String) (ids : List String) (o : Option Cover)
      → moved_one ids (map_where (is_stock_of i from) (moved_to to now) o) ≡ moved_one (i ∷ ids) o
  moved_one-map i ids none = refl
  moved_one-map i ids (some r) = moved_one-step i ids r

  -- Each cover is found as the loop leaves it.
  pub find_cover-move_all :
      (ids : List String) (j : String) (covers : List Cover)
      → find_cover j (move_all ids covers) ≡ moved_one ids (find_cover j covers)
  find_cover-move_all [] j covers = elim (Option-cases (find_cover j covers)) [
    | inl e ↦ rw e
    | inr (r, e) ↦ rw e
  ]
  find_cover-move_all (i ∷ ids) j covers =
      find_cover-move_all ids j (update_where (is_stock_of i from) (moved_to to now) covers)
      ∙ ap (moved_one ids) (
          take_where-update_where (is_stock_of i from) (λ r. str_eq r.id j) (moved_to to now)
            (λ r. refl) covers)
      ∙ moved_one-map i ids (find_cover j covers)

-- The cover is in stock with this owner at this office, and no installation of it is open.
abbrev pub IsFreeAt : String → String → Db → String → Type 0
IsFreeAt owner current db i =
    (r : Cover) × (find_cover i db.covers ≡ some r)
    × (is_at owner current r ≡ true)
    × (open_installations i db.installations ≡ 0)

pub check_at_lender_rule :
    (row : BorrowRow) (ids : List String) (c : Env) (s : Session)
    → On
        (λ _ t. (t.db ≡ s.db) × All (IsFreeAt row.lender_office_id row.lender_office_id s.db) ids)
        (check_at_lender row ids c s)
unfolding check_at_lender
check_at_lender_rule row [] c s = value (refl, tt)
check_at_lender_rule row (i ∷ ids) c s = On-after _ c (lock_cover_state_rule i c s) λ r t p.
    On-after _ c (refuse_if_rule _ _ c t) λ _ t1 p1.
      On-after _ c (has_open_installation_rule i c t1) λ b t2 p2.
        On-after _ c (refuse_if_rule b _ c t2) λ _ t3 p3.
          On-weaken (check_at_lender_rule row ids c t3) λ _ t4 p4.
            let same : t3.db ≡ s.db = cc in
            let at_start : t1.db ≡ s.db = cc in
            let closed = rw at_start at p2.1 in
            (cc, ((r, p.1, ground arith, ground arith), rw same at p4.1))
