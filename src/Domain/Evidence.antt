-- ===== src/Domain/Evidence.antt =====
-- internal/domain/evidence/evidence.go: the keys of photo objects.
pub mod Keys
pub mod Texts
mod Tests
use scc_backend.Base.{
  ◌*◌, trim_space, to_lower_ascii, ℕ, String, Bool, true, false, not, ◌&&◌, ◌||◌, Option, none,
  some, List, [], ◌∷◌, str_eq, ◌==◌, leb, ltb, if◌then◌else◌, rune_count, cat_all, char_code,
  reverse,
}

pub data Kind : Type 0 where
  install remove : Kind
  other : String → Kind

-- `string(kind)`
abbrev pub kind_name : Kind → String
kind_name Kind.install = "install"
kind_name Kind.remove = "remove"
kind_name (Kind.other k) = k

-- `Kind.IsValid`
unfoldable pub is_valid_kind : Kind → Bool
is_valid_kind (Kind.other k) = false
is_valid_kind _ = true

-- [A-Za-z0-9]
abbrev pub is_alphanumeric : ℕ → Bool
is_alphanumeric c = (leb 65 c && leb c 90) || (leb 97 c && leb c 122) || (leb 48 c && leb c 57)

-- [A-Za-z0-9_-]
abbrev pub is_identifier_char : ℕ → Bool
is_identifier_char c = is_alphanumeric c || c == 95 || c == 45

abbrev pub all_identifier_chars : String → Bool
all_identifier_chars String.[] = true
all_identifier_chars (String.◌∷◌ c s) = is_identifier_char (char_code c) && all_identifier_chars s

-- `ValidateIdentifier`
unfoldable pub is_identifier : String → Bool
is_identifier String.[] = false
is_identifier (String.◌∷◌ c s) =
    is_alphanumeric (char_code c) && all_identifier_chars s && leb (rune_count s) 127

-- The part before the first separator, put before the parts of the rest.
abbrev pub push_char : String → List String → List String
push_char c [] = c ∷ []
push_char c (p ∷ ps) = cat_all (c ∷ p ∷ []) ∷ ps

-- `strings.Split(s, sep)` at a separator of one character
abbrev pub split_at : ℕ → String → List String
split_at sep String.[] = "" ∷ []
split_at sep (String.◌∷◌ c s) =
    if char_code c == sep
    then "" ∷ split_at sep s
    else push_char (String.◌∷◌ c String.[]) (split_at sep s)

abbrev pub back_up : List String → List String
back_up [] = ".." ∷ []
back_up (top ∷ rest) = if str_eq top ".." then ".." ∷ top ∷ rest else rest

-- One element of a relative path on the elements before it, the nearest first, as `path.Clean`
-- takes it.
abbrev pub clean_step : String → List String → List String
clean_step e stack =
    if str_eq e "" || str_eq e "."
    then stack
    else if str_eq e ".."
    then back_up stack
    else e ∷ stack

abbrev pub clean_onto : List String → List String → List String
clean_onto stack [] = stack
clean_onto stack (e ∷ es) = clean_onto (clean_step e stack) es

-- The texts with a slash between each two.
abbrev pub join_path : List String → String
join_path [] = ""
join_path (e ∷ []) = e
join_path (e ∷ f ∷ es) = cat_all (e ∷ "/" ∷ join_path (f ∷ es) ∷ [])

-- The cleaned path of the elements left, the last first.
abbrev pub cleaned_path : List String → String
cleaned_path [] = "."
cleaned_path (e ∷ es) = join_path (reverse (e ∷ es))

-- `path.Clean`, of a text that does not start with a slash
unfoldable pub path_clean : String → String
path_clean s = cleaned_path (clean_onto [] (split_at 47 s))

abbrev pub starts_with_slash : String → Bool
starts_with_slash String.[] = false
starts_with_slash (String.◌∷◌ c s) = char_code c == 47

-- The last part: a token and an extension.
abbrev pub is_object_name : (String → Bool) → List String → Bool
is_object_name is_uuid (token ∷ extension ∷ []) =
    is_uuid token && (str_eq extension "jpg" || str_eq extension "png" || str_eq extension "webp")
is_object_name is_uuid _ = false

abbrev pub is_key_of : (String → Bool) → Kind → String → String → List String → Bool
is_key_of is_uuid kind work_order_id cover_id (a ∷ b ∷ c ∷ d ∷ e ∷ name ∷ []) =
    str_eq a "evidence"
    && str_eq b "v1"
    && str_eq c (kind_name kind)
    && str_eq d work_order_id
    && str_eq e cover_id
    && is_object_name is_uuid (split_at 46 name)
is_key_of is_uuid kind work_order_id cover_id _ = false

-- `ValidateObjectKey`: whether it returns no error. The function is `uuid.Parse`'s.
unfoldable pub is_valid_object_key : (String → Bool) → String → Kind → String → String → Bool
is_valid_object_key is_uuid key kind work_order_id cover_id =
    is_valid_kind kind
    && is_identifier work_order_id
    && is_identifier cover_id
    && not (str_eq key "" || starts_with_slash key || not (str_eq (path_clean key) key))
    && is_key_of is_uuid kind work_order_id cover_id (split_at 47 key)

-- A size below 1 is refused; 0 stands for those.
pub record ObjectMetadata : Type 0 where
  pub content_type : String
  pub detected_content_type : String
  pub size : ℕ

abbrev pub supported : String → Option String
supported t =
    if str_eq t "image/jpeg" || str_eq t "image/png" || str_eq t "image/webp" then some t else none

abbrev pub supported_lower : Option String → Option String
supported_lower none = none
supported_lower (some t) = supported (to_lower_ascii t)

abbrev pub max_image_bytes : ℕ
max_image_bytes = 10 * 1024 * 1024

abbrev pub if_size : ℕ → Option String → Option String
if_size size none = none
if_size size (some t) = if ltb 0 size && not (ltb max_image_bytes size) then some t else none

abbrev pub same_type : Option String → Option String → Bool
same_type (some a) (some b) = str_eq a b
same_type _ _ = false

-- The function is `mime.ParseMediaType`'s, which gives the media type of a header.
module _ (parse : String → Option String) where
  -- `NormalizeImageContentType`
  unfoldable pub normalize_content_type : String → Option String
  normalize_content_type value = supported_lower (parse (trim_space value))

  -- `ValidateImageMetadata`: the media type, unless it returns an error
  unfoldable pub image_type : String → ℕ → Option String
  image_type content_type size = if_size size (normalize_content_type content_type)

  -- `ValidateStoredImageMetadata`: whether it returns no error
  unfoldable pub is_stored_image : ObjectMetadata → Bool
  is_stored_image m =
      same_type (normalize_content_type m.detected_content_type) (image_type m.content_type m.size)

  abbrev extension_of : String → String
  extension_of t =
      if str_eq t "image/jpeg" then "jpg" else if str_eq t "image/png" then "png" else "webp"

  abbrev key_of : Kind → String → String → String → Option String → Option String
  key_of kind work_order_id cover_id token none = none
  key_of kind work_order_id cover_id token (some normalized) = some (
      join_path (
        "evidence"
        ∷ "v1"
        ∷ kind_name kind
        ∷ work_order_id
        ∷ cover_id
        ∷ cat_all (token ∷ "." ∷ extension_of normalized ∷ [])
        ∷ []))

  -- `objectKey`: the key, unless it returns an error. The function is `uuid.Parse`'s.
  unfoldable pub object_key :
      (String → Bool) → Kind → String → String → String → String → Option String
  object_key is_uuid kind work_order_id cover_id content_type token =
      if is_valid_kind kind
        && is_identifier work_order_id
        && is_identifier cover_id
        && is_uuid token
      then key_of kind work_order_id cover_id token (normalize_content_type content_type)
      else none
