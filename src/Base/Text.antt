-- ===== src/Base/Text.antt =====
-- Texts: Go strings as lists of Unicode scalar values. Equality, `strings.TrimSpace`, and the
-- number of runes.
use Prim.Native.Nat.{ℕ, zero, suc, ◌-◌, ◌/◌, ◌%◌, Ordering}
use Prim.Native.Char.{Char, code}
use Prim.Native.String.{String, ◌++◌, compare}
use mathlib.Core.List.{List, [], ◌∷◌}
use mathlib.Core.Path.{◌≡◌, refl}
use mathlib.Core.Bool.{Bool, true, false, ◌&&◌, ◌||◌}
use scc_backend.Base.Tests.{leb, ◌==◌, if◌then◌else◌}
use text.Mathlib.Text.{◌==◌ as text_eq}
pub use text.Mathlib.TextEquality.{eq_iff}

abbrev pub str_eq : String → String → Bool
str_eq = text_eq

abbrev pub char_code : Char → ℕ
char_code = code

-- Go's order of texts: that of their bytes in UTF-8, which is that of their characters.
abbrev pub text_before : String → String → Bool
text_before s t = elim (compare s t) [ Ordering.lt ↦ true | _ ↦ false ]

pub str_eq_refl : (s : String) → str_eq s s ≡ true
str_eq_refl s = (eq_iff s s).1 refl

-- `unicode.IsSpace`
unfoldable pub is_space : ℕ → Bool
is_space c =
    (leb 9 c && leb c 13)
    || c == 32
    || c == 133
    || c == 160
    || c == 5760
    || (leb 8192 c && leb c 8202)
    || c == 8232
    || c == 8233
    || c == 8239
    || c == 8287
    || c == 12288

unfoldable pub trim_left : String → String
unfolding is_space
trim_left String.[] = String.[]
trim_left (String.◌∷◌ c s) = if is_space (code c) then trim_left s else String.◌∷◌ c s

unfoldable pub trim_right : String → String
unfolding is_space
trim_right String.[] = String.[]
trim_right (String.◌∷◌ c s) = elim (trim_right s) [
  | String.[] ↦ if is_space (code c) then String.[] else String.◌∷◌ c String.[]
  | String.◌∷◌ d t ↦ String.◌∷◌ c (String.◌∷◌ d t)
]

-- `strings.TrimSpace`
unfoldable pub trim_space : String → String
unfolding trim_left trim_right
trim_space s = trim_right (trim_left s)

abbrev pub cat : String → String → String
cat = ◌++◌

-- The texts of a list, one after another, as `fmt.Sprintf` joins its literals and its arguments.
abbrev pub cat_all : List String → String
cat_all [] = String.[]
cat_all (s ∷ ss) = cat s (cat_all ss)

abbrev pub char_or : String → ℕ → Char → Char
char_or String.[] i d = d
char_or (String.◌∷◌ c s) zero d = c
char_or (String.◌∷◌ c s) (suc i) d = char_or s i d

abbrev nth : String → ℕ → String
nth String.[] i = String.[]
nth (String.◌∷◌ c s) zero = String.◌∷◌ c String.[]
nth (String.◌∷◌ c s) (suc i) = nth s i

lower_char : Char → Char
lower_char c =
    if leb 65 (code c) && leb (code c) 90
    then char_or "abcdefghijklmnopqrstuvwxyz" (code c - 65) c
    else c

-- `strings.ToLower`, of a text of ASCII characters.
unfoldable pub to_lower_ascii : String → String
unfolding lower_char
to_lower_ascii String.[] = String.[]
to_lower_ascii (String.◌∷◌ c s) = String.◌∷◌ (lower_char c) (to_lower_ascii s)

decimal_onto : ℕ → ℕ → String → String
decimal_onto zero n rest = rest
decimal_onto (suc fuel) n rest =
    let shown = cat (nth "0123456789" (n % 10)) rest in
    let more = decimal_onto fuel (n / 10) shown in if n / 10 == 0 then shown else more

-- `%d` of a count; a number has no more digits than its value plus one.
unfoldable pub decimal : ℕ → String
unfolding decimal_onto
decimal n = decimal_onto (suc n) n String.[]

-- `len([]rune(s))`
unfoldable pub rune_count : String → ℕ
rune_count String.[] = 0
rune_count (String.◌∷◌ c s) = suc (rune_count s)

trims : trim_space " a b\n" ≡ "a b"
unfolding trim_space
trims = refl

lowers : to_lower_ascii "APPROVE" ≡ "approve"
unfolding to_lower_ascii
lowers = refl

shows : decimal 4096 ≡ "4096"
unfolding decimal
shows = refl
