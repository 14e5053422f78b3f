-- ===== src/Domain/Evidence/Texts.antt =====
-- Splitting, joining and cleaning paths: what the keys of photos need of them.
use scc_backend.Base.{
  ℕ, ◌≡◌, refl, ap, ◌∙◌, String, Bool, true, false, ◌||◌, List, [], ◌∷◌, str_eq, eq_iff, ◌==◌,
  Bool-cases, inl, inr, arith, All, cat, cat_all, char_code,
}
use Prim.Native.Char.{Char}
use Prim.Native.String.append.{nil, cons}
use text.Mathlib.TextLemmas.{append-nil}
use scc_backend.Domain.Evidence.{
  is_alphanumeric, is_identifier_char, all_identifier_chars, is_identifier, split_at, clean_onto,
  join_path, starts_with_slash,
}

cat-nil : (t : String) → cat String.[] t ≡ t
cat-nil t = λ i. nil t i

cat-cons : (c : Char) (s t : String) → cat (String.◌∷◌ c s) t ≡ String.◌∷◌ c (cat s t)
cat-cons c s t = λ i. cons c s t i

pub cat-char : (c : Char) (t : String) → cat (String.◌∷◌ c String.[]) t ≡ String.◌∷◌ c t
cat-char c t = cat-cons c String.[] t ∙ ap (String.◌∷◌ c) (cat-nil t)

abbrev pub has_char : ℕ → String → Bool
has_char sep String.[] = false
has_char sep (String.◌∷◌ c s) = char_code c == sep || has_char sep s

pub has_char-cat :
    (sep : ℕ) (s t : String) → has_char sep (cat s t) ≡ (has_char sep s || has_char sep t)
has_char-cat sep String.[] t = ap (has_char sep) (cat-nil t)
has_char-cat sep (String.◌∷◌ c s) t =
    ap (has_char sep) (cat-cons c s t) ∙ ground (arith, has_char-cat sep s t)

-- A separator after a text without it ends the first part.
pub split_at-cat :
    (sep : ℕ) (p : String) (c : Char) (rest : String)
    → (char_code c == sep) ≡ true
    → has_char sep p ≡ false
    → split_at sep (cat p (String.◌∷◌ c rest)) ≡ p ∷ split_at sep rest
split_at-cat sep String.[] c rest e f = ap (split_at sep) (cat-nil (String.◌∷◌ c rest)) ∙ rw e refl
split_at-cat sep (String.◌∷◌ d p) c rest e f =
    let other : (char_code d == sep) ≡ false = ground (arith, f) in
    let inner = split_at-cat sep p c rest e (ground (arith, f)) in
    let whole : cat_all (String.◌∷◌ d String.[] ∷ p ∷ []) ≡ String.◌∷◌ d p =
      cat-cons d String.[] (cat p String.[])
      ∙ ap (String.◌∷◌ d) (cat-nil (cat p String.[]) ∙ append-nil p) in
    ap (split_at sep) (cat-cons d p (String.◌∷◌ c rest))
    ∙ rw (other, inner) (ap (λ x. x ∷ split_at sep rest) whole)

pub split_at-one : (sep : ℕ) (p : String) → has_char sep p ≡ false → split_at sep p ≡ p ∷ []
split_at-one sep String.[] f = refl
split_at-one sep (String.◌∷◌ d p) f =
    let other : (char_code d == sep) ≡ false = ground (arith, f) in
    let inner = split_at-one sep p (ground (arith, f)) in
    let whole : cat_all (String.◌∷◌ d String.[] ∷ p ∷ []) ≡ String.◌∷◌ d p =
      cat-cons d String.[] (cat p String.[])
      ∙ ap (String.◌∷◌ d) (cat-nil (cat p String.[]) ∙ append-nil p) in
    rw (other, inner) (ap (λ x. x ∷ []) whole)

-- Parts without a slash come back.
pub split_at-join_path :
    (e : String) (es : List String)
    → All (λ p. has_char 47 p ≡ false) (e ∷ es)
    → split_at 47 (join_path (e ∷ es)) ≡ e ∷ es
split_at-join_path e [] h = split_at-one 47 e h.0
split_at-join_path e (f ∷ es) h =
    let slash : cat "/" (cat (join_path (f ∷ es)) String.[]) ≡ String.◌∷◌ "/" (join_path (f ∷ es)) =
      cat-cons "/" String.[] _
      ∙ ap (String.◌∷◌ "/") (cat-nil _ ∙ append-nil (join_path (f ∷ es))) in
    ap (λ s. split_at 47 (cat e s)) (ap (λ s. s) slash)
    ∙ split_at-cat 47 e "/" (join_path (f ∷ es)) refl h.0
    ∙ ap (λ ps. e ∷ ps) (split_at-join_path f es h.1)

-- The text starts with a letter or a digit.
abbrev pub is_word : String → Bool
is_word String.[] = false
is_word (String.◌∷◌ c s) = is_alphanumeric (char_code c)

pub is_word-cat : (s t : String) → is_word s ≡ true → is_word (cat s t) ≡ true
is_word-cat String.[] t e = cc e
is_word-cat (String.◌∷◌ c s) t e = ap is_word (cat-cons c s t) ∙ e

pub not_word : (s t : String) → is_word s ≡ true → is_word t ≡ false → str_eq s t ≡ false
not_word s t e f = elim (Bool-cases (str_eq s t)) [
  | inl h ↦ cc (e, f, ap is_word ((eq_iff s t).0 h))
  | inr h ↦ h
]

-- The elements put on a stack, one after another.
abbrev pub pushed : List String → List String → List String
pushed stack [] = stack
pushed stack (e ∷ es) = pushed (e ∷ stack) es

-- Words are elements of a path that cleaning keeps.
pub clean_onto-words :
    (stack es : List String)
    → All (λ e. is_word e ≡ true) es
    → clean_onto stack es ≡ pushed stack es
clean_onto-words stack [] h = refl
clean_onto-words stack (e ∷ es) h =
    rw (not_word e "" h.0 refl, not_word e "." h.0 refl, not_word e ".." h.0 refl)
      (clean_onto-words (e ∷ stack) es h.1)

pub starts_with_slash-word : (s : String) → is_word s ≡ true → starts_with_slash s ≡ false
starts_with_slash-word String.[] e = refl
starts_with_slash-word (String.◌∷◌ c s) e = ground (arith, e)

-- What an identifier is: a word without a slash and without a dot.
pub record Plain (s : String) : Type 0 where
  pub word : is_word s ≡ true
  pub no_slash : has_char 47 s ≡ false
  pub no_dot : has_char 46 s ≡ false

no_separator :
    (sep : ℕ) (s : String)
    → is_identifier_char sep ≡ false
    → all_identifier_chars s ≡ true
    → has_char sep s ≡ false
no_separator sep String.[] e f = refl
no_separator sep (String.◌∷◌ c s) e f = elim (Bool-cases (char_code c == sep)) [
  | inl h ↦ ground (arith, e, f, h)
  | inr h ↦ rw h (no_separator sep s e (ground (arith, f)))
]

pub is_identifier-Plain : (s : String) → is_identifier s ≡ true → Plain s
unfolding is_identifier
is_identifier-Plain String.[] e = cc e
is_identifier-Plain (String.◌∷◌ c s) e =
    let all : all_identifier_chars (String.◌∷◌ c s) ≡ true = ground (arith, e) in
    record {
      word = ground (arith, e);
      no_slash = no_separator 47 (String.◌∷◌ c s) refl all;
      no_dot = no_separator 46 (String.◌∷◌ c s) refl all;
    }
