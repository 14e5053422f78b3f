-- ===== src/Borrow/Detail/Covers.antt =====
-- The covers that listCoverSummaries shows, by the links of the borrow.
use scc_backend.Base.{
  ℕ, ◌+◌, ◌≡◌, refl, sym, ap, subst, ◌∙◌, String, Bool, true, false, ◌&&◌, none, some, List, [],
  ◌∷◌, map, str_eq, eq_iff, is_some, count_where, select_where, count_where-order_by, All,
  All-order_by, arith, inl, inr, Bool-cases, Option-cases, if◌then◌else◌,
}
use scc_backend.Store.{Db, Cover, BorrowCover}
use scc_backend.Effect.{Env, Session}
use scc_backend.Effect.Ensures.{On, On-after, On-weaken, query_rule, ask_rule}
use scc_backend.Borrow.Rows.{find_cover}
use scc_backend.Borrow.Detail.{CoverSummary, cover_summary, joined_covers, list_cover_summaries}

-- The summary shows the row of its cover.
abbrev pub IsSummary : List Cover → CoverSummary → Type 0
IsSummary covers x =
    (r : Cover) × (find_cover x.id covers ≡ some r)
    × (x.asset_code ≡ r.asset_code)
    × (x.status ≡ r.status)
    × (x.owner_office_id ≡ r.owner_office_id)
    × (x.current_office_id ≡ r.current_office_id)

-- Each cover is shown as often as the borrow has links to it, where it has a row, and every summary
-- shows the row of its cover.
pub record ShowsCovers (borrow_id : String) (db : Db) (xs : List CoverSummary) : Type 0 where
  pub shown :
      (id : String)
      → count_where (λ x. str_eq x.id id) xs ≡ (
          if is_some (find_cover id db.covers)
          then count_where
              (λ l. str_eq l.borrow_id borrow_id && str_eq l.cover_id id)
              db.borrow_covers
          else 0)
  pub rows : All (IsSummary db.covers) xs

find_cover-own :
    (id : String) (r : Cover) (covers : List Cover) → find_cover id covers ≡ some r → r.id ≡ id
find_cover-own id r [] h = cc h
find_cover-own id r (x ∷ xs) h = elim (Bool-cases (str_eq x.id id)) [
  | inl e ↦ let same : x ≡ r = cc (rw e at h) in rw (sym same) ((eq_iff x.id id).0 e)
  | inr e ↦ find_cover-own id r xs (rw e at h)
]

count_where-map :
    {A B : Type 0} (q : B → Bool) (f : A → B) (xs : List A)
    → count_where q (map f xs) ≡ count_where (λ x. q (f x)) xs
count_where-map q f [] = refl
count_where-map q f (x ∷ xs) = ap (λ n. (if q (f x) then 1 else 0) + n) (count_where-map q f xs)

All-map :
    {A B : Type 0} (P : B → Type 0) (f : A → B) (xs : List A)
    → All (λ x. P (f x)) xs
    → All P (map f xs)
All-map P f [] h = tt
All-map P f (x ∷ xs) h = (h.0, All-map P f xs h.1)

module _ (borrow_id : String) (covers : List Cover) where
  abbrev expected : String → List BorrowCover → ℕ
  expected id ls =
      if is_some (find_cover id covers)
      then count_where (λ l. str_eq l.borrow_id borrow_id && str_eq l.cover_id id) ls
      else 0

  abbrev joined : List BorrowCover → List Cover
  joined ls = joined_covers covers (select_where (λ l. str_eq l.borrow_id borrow_id) ls)

  joined-none :
      (l : BorrowCover) (ls : List BorrowCover)
      → find_cover l.cover_id covers ≡ none
      → joined_covers covers (l ∷ ls) ≡ joined_covers covers ls
  joined-none l ls f = rw (f, joined_covers) refl

  joined-some :
      (l : BorrowCover) (ls : List BorrowCover) (r : Cover)
      → find_cover l.cover_id covers ≡ some r
      → joined_covers covers (l ∷ ls) ≡ r ∷ joined_covers covers ls
  joined-some l ls r f = rw (f, joined_covers) refl

  -- One more link of the borrow, which names the cover or does not.
  one_more :
      (id : String) (l : BorrowCover) (ls : List BorrowCover) (n : ℕ)
      → count_where (λ x. str_eq x.id id) (joined_covers covers ls)
        ≡ (if is_some (find_cover id covers) then n else 0)
      → count_where (λ x. str_eq x.id id) (joined_covers covers (l ∷ ls)) ≡ (
          if is_some (find_cover id covers) then (if str_eq l.cover_id id then 1 else 0) + n else 0)
  one_more id l ls n h = elim (Option-cases (find_cover l.cover_id covers)) [
    | inl f ↦ rw (joined-none l ls f) (h ∙ without f (str_eq l.cover_id id) refl)
    | inr (r, f) ↦ rw (joined-some l ls r f) (
        rw (find_cover-own l.cover_id r covers f) (
          ap (λ m. (if str_eq l.cover_id id then 1 else 0) + m) h
          ∙ with_one r f (str_eq l.cover_id id) refl))
  ]
    where
      without :
          find_cover l.cover_id covers ≡ none
          → (b : Bool) → str_eq l.cover_id id ≡ b
          → (if is_some (find_cover id covers) then n else 0)
            ≡ (if is_some (find_cover id covers) then (if b then 1 else 0) + n else 0)
      without f true e = let gone = rw ((eq_iff l.cover_id id).0 e) at f in rw gone refl
      without f false e = ground arith

      with_one :
          (r : Cover)
          → find_cover l.cover_id covers ≡ some r
          → (b : Bool) → str_eq l.cover_id id ≡ b
          → (if b then 1 else 0) + (if is_some (find_cover id covers) then n else 0)
            ≡ (if is_some (find_cover id covers) then (if b then 1 else 0) + n else 0)
      with_one r f true e = let there = rw ((eq_iff l.cover_id id).0 e) at f in rw there refl
      with_one r f false e = ground arith

  count_where-joined :
      (id : String) (ls : List BorrowCover)
      → count_where (λ x. str_eq x.id id) (joined ls) ≡ expected id ls
  count_where-joined id [] = ground arith
  count_where-joined id (l ∷ ls) = elim (Bool-cases (str_eq l.borrow_id borrow_id)) [
    | inl e ↦ rw e (
        one_more id l (select_where (λ x. str_eq x.borrow_id borrow_id) ls) _
          (count_where-joined id ls))
    | inr e ↦ rw e (ground (arith, count_where-joined id ls))
  ]

  rows-joined : (ls : List BorrowCover) → All (λ r. IsSummary covers (cover_summary r)) (joined ls)
  rows-joined [] = tt
  rows-joined (l ∷ ls) = elim (Bool-cases (str_eq l.borrow_id borrow_id)) [
    | inl e ↦ rw e (elim (Option-cases (find_cover l.cover_id covers)) [
      | inl f ↦
          rw (joined-none l (select_where (λ x. str_eq x.borrow_id borrow_id) ls) f)
            (rows-joined ls)
      | inr (r, f) ↦ rw (joined-some l (select_where (λ x. str_eq x.borrow_id borrow_id) ls) r f) (
        (
          r,
          subst (λ i. find_cover i covers ≡ some r) (sym (find_cover-own l.cover_id r covers f)) f,
          refl,
          refl,
          refl,
          refl,
        ),
        rows-joined ls,
      )
    ])
    | inr e ↦ rw e (rows-joined ls)
  ]

pub list_cover_summaries_rule :
    (id : String) (c : Env) (s : Session)
    → On (λ xs t. (t.db ≡ s.db) × ShowsCovers id s.db xs) (list_cover_summaries id c s)
unfolding list_cover_summaries
list_cover_summaries_rule id c s = On-after _ c (ask_rule (λ x. x.before) c s) λ before t p.
    On-weaken (query_rule _ c t) λ xs t1 p1. (
      cc,
      rw (p1.0, p.1)
          (record {
            shown = λ k.
                count_where-map _ cover_summary _
                ∙ count_where-order_by _ _ _
                ∙ count_where-joined id s.db.covers k s.db.borrow_covers;
            rows =
                All-map (IsSummary s.db.covers) cover_summary _
                  (All-order_by _ _ _ (rows-joined id s.db.covers s.db.borrow_covers));
          }),
    )
