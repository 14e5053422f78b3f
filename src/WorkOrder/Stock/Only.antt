-- ===== src/WorkOrder/Stock/Only.antt =====
-- A row that is the only one with its id: what a query of one row has read is what an UPDATE by id
-- writes to.
use scc_backend.Base.{
  ◌≤◌, ◌≡◌, refl, sym, ap, subst, ◌∙◌, String, Bool, true, false, some, List, [], ◌∷◌, str_eq,
  str_eq_refl, eq_iff, count_where, take_where, select_where, update_where,
  count_where-update_where, All, Bool-cases, inl, inr, arith,
}
use scc_backend.Store.{Installation}
use scc_backend.WorkOrder.Rows.{has_installation_id}
use scc_backend.WorkOrder.Stock.Lists.{All-update_where}

pub All-map {ℓ κ κ1} :
    {A : Type ℓ} {P : A → Type κ} {Q : A → Type κ1} (xs : List A)
    → ((a : A) → P a → Q a)
    → All P xs
    → All Q xs
All-map [] f h = tt
All-map (x ∷ xs) f h = (f x h.0, All-map xs f h.1)

pub All-select_where {ℓ κ} :
    {A : Type ℓ} (P : A → Type κ) (p : A → Bool) (xs : List A)
    → All P xs
    → All (λ x. P x × (p x ≡ true)) (select_where p xs)
All-select_where P p [] h = tt
All-select_where P p (x ∷ xs) h = elim (Bool-cases (p x)) [
  | inl e ↦ rw e ((h.0, e), All-select_where P p xs h.1)
  | inr e ↦ rw e (All-select_where P p xs h.1)
]

pub All-take_where {ℓ κ} :
    {A : Type ℓ} (P : A → Type κ) (p : A → Bool) (xs : List A) (x : A)
    → All P xs
    → take_where p xs ≡ some x
    → P x × (p x ≡ true)
All-take_where P p [] x h e = cc e
All-take_where P p (y ∷ ys) x h e = elim (Bool-cases (p y)) [
  | inl f ↦ let same : y ≡ x = cc (rw f at e) in subst (λ z. P z × (p z ≡ true)) same (h.0, f)
  | inr f ↦ All-take_where P p ys x h.1 (rw f at e)
]

-- Every row with the id of `i` is `i`.
abbrev pub IsOnly : Installation → List Installation → Type 0
IsOnly i = All (λ r. str_eq r.id i.id ≡ true → r ≡ i)

pub record Only (i : Installation) (rows : List Installation) : Type 0 where
  pub only : IsOnly i rows
  pub once : count_where (has_installation_id i.id) rows ≡ 1

none-IsOnly :
    (i : Installation) (rows : List Installation)
    → count_where (has_installation_id i.id) rows ≡ 0
    → IsOnly i rows
none-IsOnly i [] h = tt
none-IsOnly i (r ∷ rows) h = ((λ e. ground (arith, e, h)), none-IsOnly i rows (ground (arith, h)))

Only-behind :
    (r i : Installation) (rows : List Installation)
    → count_where (has_installation_id i.id) (r ∷ rows) ≤ 1
    → Only i rows
    → Only i (r ∷ rows)
Only-behind r i rows h o =
    let other : str_eq r.id i.id ≡ false = ground (arith, o.once, h) in
    record {
      only = ((λ e. ground (arith, e, other)), o.only);
      once = ground (arith, o.once, other);
    }

Only-front :
    (i : Installation) (rows : List Installation)
    → count_where (has_installation_id i.id) (i ∷ rows) ≤ 1
    → Only i (i ∷ rows)
Only-front i rows h =
    let own = str_eq_refl i.id in
    let none_left : count_where (has_installation_id i.id) rows ≡ 0 = ground (arith, own, h) in
    record {
      only = ((λ e. refl), none-IsOnly i rows none_left);
      once = ground (arith, own, none_left);
    }

-- Where no id is there twice, each row is the only one with its id.
pub All-Only :
    (rows : List Installation)
    → ((id : String) → count_where (has_installation_id id) rows ≤ 1)
    → All (λ i. Only i rows) rows
All-Only [] h = tt
All-Only (r ∷ rows) h = (
  Only-front r rows (h r.id),
  All-map rows (λ i o. Only-behind r i rows (h i.id) o) (All-Only rows λ id. ground (arith, h id)),
)

pub All-both {ℓ κ κ1} :
    {A : Type ℓ} (P : A → Type κ) (Q : A → Type κ1) (xs : List A)
    → All P xs
    → All Q xs
    → All (λ x. P x × Q x) xs
All-both P Q [] h k = tt
All-both P Q (x ∷ xs) h k = ((h.0, k.0), All-both P Q xs h.1 k.1)

-- Two rows with one id are one row.
same-Only :
    (i j : Installation) (rows : List Installation)
    → IsOnly i rows
    → IsOnly j rows
    → count_where (has_installation_id i.id) rows ≡ 1
    → i.id ≡ j.id
    → i ≡ j
same-Only i j [] h k once e = cc once
same-Only i j (r ∷ rows) h k once e = elim (Bool-cases (str_eq r.id i.id)) [
  | inl f ↦ let as_i : r ≡ i = h.0 f in let as_j : r ≡ j = k.0 (rw e at f) in cc
  | inr f ↦ same-Only i j rows h.1 k.1 (ground (arith, f, once)) e
]

-- An update of one row leaves another one the only one with its id.
pub Only-other :
    (i j : Installation) (f : Installation → Installation) (rows : List Installation)
    → ((r : Installation) → (f r).id ≡ r.id)
    → Only i rows
    → Only j rows
    → str_eq i.cover_id j.cover_id ≡ false
    → Only j (update_where (has_installation_id i.id) f rows)
Only-other i j f rows keeps o k other = record {
  only =
      All-update_where (λ r. str_eq r.id j.id ≡ true → r ≡ j) (has_installation_id i.id) f rows
        (λ r e h d.
          let found = rw (keeps r) at d in
          let own : i.id ≡ j.id = sym ((eq_iff r.id i.id).0 e) ∙ (eq_iff r.id j.id).0 found in
          let same : i ≡ j = same-Only i j rows o.only k.only o.once own in absurd_cover same other)
        k.only;
  once =
      ap (λ n. n)
        (count_where-update_where (has_installation_id i.id) (has_installation_id j.id) f
          (λ r. ap (λ id. str_eq id j.id) (keeps r)) rows)
      ∙ k.once;
}
  where
    absurd_cover : {A : Type 0} → i ≡ j → str_eq i.cover_id j.cover_id ≡ false → A
    absurd_cover e d = cc (str_eq_refl j.cover_id, e, d)
