-- ===== src/WorkOrder/Stock/Lists.antt =====
-- Counts of rows after an UPDATE: of the one row with an id, of the covers in a status, and after a
-- DELETE.
use scc_backend.Base.{
  ℕ, ◌+◌, ◌≤◌, ◌≡◌, refl, ap, String, Bool, true, false, List, [], ◌∷◌, str_eq, eq_iff, count_where,
  update_where, delete_where, All, Bool-cases, inl, inr, arith, if◌then◌else◌,
}
use scc_backend.Domain.Cover.{CoverStatus}
use scc_backend.Store.{Cover}
use scc_backend.WorkOrder.Rows.{is_cover_in, with_cover_status}
use scc_backend.WorkOrder.Stock.{count_in, count_covers}

abbrev pub one_if : Bool → ℕ → ℕ
one_if b n = if b then n else 0

-- An update of the rows that are all `i` exchanges what they count for.
pub count_where-update_only {ℓ} :
    {A : Type ℓ} (p q : A → Bool) (f : A → A) (i : A) (xs : List A)
    → All (λ r. p r ≡ true → r ≡ i) xs
    → count_where q (update_where p f xs) + one_if (q i) (count_where p xs)
      ≡ count_where q xs + one_if (q (f i)) (count_where p xs)
count_where-update_only p q f i [] h = ground arith
count_where-update_only p q f i (x ∷ xs) h = elim (Bool-cases (p x)) [
  | inl e ↦ rw (e, h.0 e) (ground (arith, count_where-update_only p q f i xs h.1))
  | inr e ↦ rw e (ground (arith, count_where-update_only p q f i xs h.1))
]

module _ (id : String) (now : ℕ) where
  pub count_in-mark_installed :
      (c : String) (covers : List Cover)
      → count_in c CoverStatus.installed (
          update_where
            (is_cover_in id CoverStatus.in_stock)
            (with_cover_status CoverStatus.installed now)
            covers)
        ≡ count_in c CoverStatus.installed covers
          + one_if (str_eq id c) (count_in id CoverStatus.in_stock covers)
  count_in-mark_installed c [] = ground arith
  count_in-mark_installed c (x ∷ xs) =
      ground (arith, count_in-mark_installed c xs, eq_iff x.id id, eq_iff id c, eq_iff x.id c)

  pub count_in-mark_in_stock :
      (c : String) (covers : List Cover)
      → count_in c CoverStatus.installed (
            update_where
              (is_cover_in id CoverStatus.installed)
              (with_cover_status CoverStatus.in_stock now)
              covers)
          + one_if (str_eq id c) (count_in id CoverStatus.installed covers)
        ≡ count_in c CoverStatus.installed covers
  count_in-mark_in_stock c [] = ground arith
  count_in-mark_in_stock c (x ∷ xs) =
      ground (arith, count_in-mark_in_stock c xs, eq_iff x.id id, eq_iff id c, eq_iff x.id c)

pub count_in-count_covers :
    (c : String) (covers : List Cover)
    → count_in c CoverStatus.in_stock covers + count_in c CoverStatus.installed covers
      ≤ count_covers c covers
count_in-count_covers c [] = omega arith
count_in-count_covers c (x ∷ xs) = ground (arith, count_in-count_covers c xs)

pub count_where-delete_where {ℓ} :
    {A : Type ℓ} (p q : A → Bool) (xs : List A)
    → count_where q (delete_where p xs) ≤ count_where q xs
count_where-delete_where p q [] = omega arith
count_where-delete_where p q (x ∷ xs) = ground (arith, count_where-delete_where p q xs)

-- A deletion of rows that do not count.
pub count_where-delete_other {ℓ} :
    {A : Type ℓ} (p q : A → Bool) (xs : List A)
    → ((x : A) → p x ≡ true → q x ≡ false)
    → count_where q (delete_where p xs) ≡ count_where q xs
count_where-delete_other p q [] h = refl
count_where-delete_other p q (x ∷ xs) h = elim (Bool-cases (p x)) [
  | inl e ↦ rw (e, h x e) (ground (arith, count_where-delete_other p q xs h))
  | inr e ↦ rw e (ap (λ n. one_if (q x) 1 + n) (count_where-delete_other p q xs h))
]

pub All-delete_where {ℓ κ} :
    {A : Type ℓ} (P : A → Type κ) (p : A → Bool) (xs : List A)
    → All P xs
    → All P (delete_where p xs)
All-delete_where P p [] h = tt
All-delete_where P p (x ∷ xs) h = elim (Bool-cases (p x)) [
  | inl e ↦ rw e (All-delete_where P p xs h.1)
  | inr e ↦ rw e (h.0, All-delete_where P p xs h.1)
]

pub All-update_where {ℓ κ} :
    {A : Type ℓ} (P : A → Type κ) (p : A → Bool) (f : A → A) (xs : List A)
    → ((x : A) → p x ≡ true → P x → P (f x))
    → All P xs
    → All P (update_where p f xs)
All-update_where P p f [] g h = tt
All-update_where P p f (x ∷ xs) g h = elim (Bool-cases (p x)) [
  | inl e ↦ rw e (g x e h.0, All-update_where P p f xs g h.1)
  | inr e ↦ rw e (h.0, All-update_where P p f xs g h.1)
]
