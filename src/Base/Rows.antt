-- ===== src/Base/Rows.antt =====
-- Tables as lists of rows, and what a WHERE clause does with them: count, take the first row,
-- update, filter, order.
use Prim.Native.Nat.{ℕ, zero, suc, ◌+◌, ◌≤◌}
use mathlib.Core.Path.{◌≡◌, refl, sym, ap, ◌∙◌}
use mathlib.Core.Logic.{inl, inr}
use mathlib.Core.Bool.{Bool, true}
use mathlib.Core.Option.{Option, none, some}
use mathlib.Core.List.{List, [], ◌∷◌, ◌++◌}
use native.Mathlib.Omega.{arith}
use scc_backend.Base.Tests.{if◌then◌else◌, Bool-cases}

module _ {ℓ} {A : Type ℓ} where
  abbrev pub length : List A → ℕ
  length [] = 0
  length (x ∷ xs) = suc (length xs)

  abbrev pub take : ℕ → List A → List A
  take zero xs = []
  take (suc n) [] = []
  take (suc n) (x ∷ xs) = x ∷ take n xs

  abbrev pub get_or : List A → ℕ → A → A
  get_or [] i d = d
  get_or (x ∷ xs) zero d = x
  get_or (x ∷ xs) (suc i) d = get_or xs i d

  -- A predicate of every row.
  abbrev pub All {κ} : (A → Type κ) → List A → Type κ
  All P [] = Unit
  All P (x ∷ xs) = P x × All P xs

  -- SELECT count(*) … WHERE p
  abbrev pub count_where : (A → Bool) → List A → ℕ
  count_where p [] = 0
  count_where p (x ∷ xs) = (if p x then 1 else 0) + count_where p xs

  -- SELECT … WHERE p LIMIT 1, gorm's `Take`
  abbrev pub take_where : (A → Bool) → List A → Option A
  take_where p [] = none
  take_where p (x ∷ xs) = if p x then some x else take_where p xs

  -- SELECT … WHERE p
  abbrev pub select_where : (A → Bool) → List A → List A
  select_where p [] = []
  select_where p (x ∷ xs) = if p x then x ∷ select_where p xs else select_where p xs

  -- UPDATE … SET f WHERE p
  abbrev pub update_where : (A → Bool) → (A → A) → List A → List A
  update_where p f [] = []
  update_where p f (x ∷ xs) = (if p x then f x else x) ∷ update_where p f xs

  -- DELETE … WHERE p
  abbrev pub delete_where : (A → Bool) → List A → List A
  delete_where p [] = []
  delete_where p (x ∷ xs) = if p x then delete_where p xs else x ∷ delete_where p xs

  abbrev pub insert_sorted : (A → A → Bool) → A → List A → List A
  insert_sorted before x [] = x ∷ []
  insert_sorted before x (y ∷ ys) = if before y x then y ∷ insert_sorted before x ys else x ∷ y ∷ ys

  -- ORDER BY, by insertion
  abbrev pub order_by : (A → A → Bool) → List A → List A
  order_by before [] = []
  order_by before (x ∷ xs) = insert_sorted before x (order_by before xs)

module _ {ℓ} {A : Type ℓ} where
  pub length-update_where :
      (p : A → Bool) (f : A → A) (xs : List A) → length (update_where p f xs) ≡ length xs
  length-update_where p f [] = refl
  length-update_where p f (x ∷ xs) = ground (arith, length-update_where p f xs)

  pub length-select_where :
      (p : A → Bool) (xs : List A) → length (select_where p xs) ≡ count_where p xs
  length-select_where p [] = refl
  length-select_where p (x ∷ xs) = ground (arith, length-select_where p xs)

  pub count_where-insert_sorted :
      (p : A → Bool) (before : A → A → Bool) (x : A) (xs : List A)
      → count_where p (insert_sorted before x xs) ≡ (if p x then 1 else 0) + count_where p xs
  count_where-insert_sorted p before x [] = refl
  count_where-insert_sorted p before x (y ∷ ys) =
      ground (arith, count_where-insert_sorted p before x ys)

  -- Ordering keeps every count.
  pub count_where-order_by :
      (p : A → Bool) (before : A → A → Bool) (xs : List A)
      → count_where p (order_by before xs) ≡ count_where p xs
  count_where-order_by p before [] = refl
  count_where-order_by p before (x ∷ xs) = ground (
    arith,
    count_where-insert_sorted p before x (order_by before xs),
    count_where-order_by p before xs,
  )

  pub length-insert_sorted :
      (before : A → A → Bool) (x : A) (xs : List A)
      → length (insert_sorted before x xs) ≡ suc (length xs)
  length-insert_sorted before x [] = refl
  length-insert_sorted before x (y ∷ ys) = ground (arith, length-insert_sorted before x ys)

  pub length-order_by :
      (before : A → A → Bool) (xs : List A) → length (order_by before xs) ≡ length xs
  length-order_by before [] = refl
  length-order_by before (x ∷ xs) =
      ground (arith, length-insert_sorted before x (order_by before xs), length-order_by before xs)

  module _ {κ} (P : A → Type κ) where
    pub All-insert_sorted :
        (before : A → A → Bool) (x : A) (xs : List A)
        → P x
        → All P xs
        → All P (insert_sorted before x xs)
    All-insert_sorted before x [] h hs = (h, tt)
    All-insert_sorted before x (y ∷ ys) h hs = elim (Bool-cases (before y x)) [
      | inl e ↦ rw e (hs.0, All-insert_sorted before x ys h hs.1)
      | inr e ↦ rw e (h, hs)
    ]

    pub All-order_by : (before : A → A → Bool) (xs : List A) → All P xs → All P (order_by before xs)
    All-order_by before [] hs = tt
    All-order_by before (x ∷ xs) hs =
        All-insert_sorted before x (order_by before xs) hs.0 (All-order_by before xs hs.1)

  -- An update that keeps what is searched by shows in the row found, and only there.
  abbrev pub map_where : (A → Bool) → (A → A) → Option A → Option A
  map_where p f none = none
  map_where p f (some x) = some (if p x then f x else x)

  pub take_where-update_where :
      (p q : A → Bool) (f : A → A)
      → ((x : A) → q (f x) ≡ q x)
      → (xs : List A) → take_where q (update_where p f xs) ≡ map_where p f (take_where q xs)
  take_where-update_where p q f h [] = refl
  take_where-update_where p q f h (x ∷ xs) = ground (arith, h x, take_where-update_where p q f h xs)

  pub count_where-update_where :
      (p q : A → Bool) (f : A → A)
      → ((x : A) → q (f x) ≡ q x)
      → (xs : List A) → count_where q (update_where p f xs) ≡ count_where q xs
  count_where-update_where p q f h [] = refl
  count_where-update_where p q f h (x ∷ xs) =
      ground (arith, h x, count_where-update_where p q f h xs)

-- Rows with `P` were added before the others, and none was lost.
abbrev pub Grown {ℓ κ} : {A : Type ℓ} → (A → Type κ) → List A → List A → Type (ℓ ⊔ κ)
Grown P before after = (added : List _) × (after ≡ added ++ before) × All P added

module _ {ℓ} {A : Type ℓ} where
  ++-assoc : (xs ys zs : List A) → (xs ++ ys) ++ zs ≡ xs ++ (ys ++ zs)
  ++-assoc [] ys zs = refl
  ++-assoc (x ∷ xs) ys zs = ap (λ r. x ∷ r) (++-assoc xs ys zs)

  count_where-++ :
      (q : A → Bool) (xs ys : List A)
      → count_where q (xs ++ ys) ≡ count_where q xs + count_where q ys
  count_where-++ q [] ys = omega arith
  count_where-++ q (x ∷ xs) ys = omega (arith, count_where-++ q xs ys)

  module _ {κ} (P : A → Type κ) where
    All-++ : (xs ys : List A) → All P xs → All P ys → All P (xs ++ ys)
    All-++ [] ys h k = k
    All-++ (x ∷ xs) ys h k = (h.0, All-++ xs ys h.1 k)

    pub Grown-none : (xs : List A) → Grown P xs xs
    Grown-none xs = ([], refl, tt)

    pub Grown-one : (x : A) (xs : List A) → P x → Grown P xs (x ∷ xs)
    Grown-one x xs h = (x ∷ [], refl, (h, tt))

    pub Grown-trans : (xs ys zs : List A) → Grown P xs ys → Grown P ys zs → Grown P xs zs
    Grown-trans xs ys zs g h = (
      h.0 ++ g.0,
      h.1 ∙ ap (λ r. h.0 ++ r) g.1 ∙ sym (++-assoc h.0 g.0 xs),
      All-++ h.0 g.0 h.2 g.2,
    )

    -- What was there is there still.
    pub count_where-Grown :
        (q : A → Bool) (xs ys : List A) → Grown P xs ys → count_where q xs ≤ count_where q ys
    count_where-Grown q xs ys g = rw g.1 (omega (arith, count_where-++ q g.0 xs))

    All-inserted :
        (before : A → A → Bool) (x : A) (xs : List A)
        → All P (insert_sorted before x xs)
        → P x × All P xs
    All-inserted before x [] h = h
    All-inserted before x (y ∷ ys) h = elim (Bool-cases (before y x)) [
      | inl e ↦
          let k = rw e at h in let rest = All-inserted before x ys k.1 in (rest.0, (k.0, rest.1))
      | inr e ↦ rw e at h
    ]

    pub All-ordered : (before : A → A → Bool) (xs : List A) → All P (order_by before xs) → All P xs
    All-ordered before [] h = tt
    All-ordered before (x ∷ xs) h =
        let k = All-inserted before x (order_by before xs) h in (k.0, All-ordered before xs k.1)

    pub All-selected :
        (p : A → Bool) (xs : List A) → All P (select_where p xs) → All (λ x. p x ≡ true → P x) xs
    All-selected p [] h = tt
    All-selected p (x ∷ xs) h = elim (Bool-cases (p x)) [
      | inl e ↦ let k = rw e at h in (λ _. k.0, All-selected p xs k.1)
      | inr e ↦ (λ t. absurd (ground (arith, e, t)), All-selected p xs (rw e at h))
    ]
