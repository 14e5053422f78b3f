-- ===== src/Domain/Evidence/Keys.antt =====
-- Building and checking the keys of photos.
use scc_backend.Base.{
  ◌≡◌, refl, sym, ap, ◌∙◌, ◌⊎◌, inl, inr, String, Bool, true, false, ◌&&◌, ◌||◌, Option, some, List,
  [], ◌∷◌, str_eq, str_eq_refl, eq_iff, Bool-cases, Option-cases, arith, cat, cat_all,
}
use scc_backend.Domain.Evidence.{
  Kind, kind_name, is_valid_kind, is_identifier, split_at, clean_onto, join_path, path_clean,
  cleaned_path, is_object_name, is_key_of, is_valid_object_key, normalize_content_type,
  extension_of, object_key,
}
use scc_backend.Domain.Evidence.Texts.{
  cat-char, has_char, has_char-cat, split_at-cat, split_at-join_path, is_word, is_word-cat,
  not_word, clean_onto-words, starts_with_slash-word, Plain, is_identifier-Plain,
}

-- One of the three extensions.
abbrev IsExtension : String → Type 0
IsExtension e = (e ≡ "jpg") ⊎ ((e ≡ "png") ⊎ (e ≡ "webp"))

extension_of-IsExtension :
    (parse : String → Option String) (t : String) → IsExtension (extension_of parse t)
extension_of-IsExtension parse t = elim (Bool-cases (str_eq t "image/jpeg")) [
  | inl e ↦ rw e (inl refl)
  | inr e ↦ rw e (elim (Bool-cases (str_eq t "image/png")) [
    | inl f ↦ rw f (inr (inl refl))
    | inr f ↦ rw f (inr (inr refl))
  ])
]

abbrev name_of : String → String → String
name_of token extension = cat_all (token ∷ "." ∷ extension ∷ [])

abbrev parts_of : String → String → String → String → List String
parts_of kind work_order_id cover_id name =
    "evidence" ∷ "v1" ∷ kind ∷ work_order_id ∷ cover_id ∷ name ∷ []

module _ (token : String) (plain : Plain token) where
  split_at-name :
      (extension : String)
      → IsExtension extension
      → split_at 46 (name_of token extension) ≡ token ∷ extension ∷ []
  split_at-name extension (inl e) = rw e (
      ap (λ s. split_at 46 (cat token s)) (cat-char "." "jpg")
      ∙ split_at-cat 46 token "." "jpg" refl plain.no_dot)
  split_at-name extension (inr (inl e)) = rw e (
      ap (λ s. split_at 46 (cat token s)) (cat-char "." "png")
      ∙ split_at-cat 46 token "." "png" refl plain.no_dot)
  split_at-name extension (inr (inr e)) = rw e (
      ap (λ s. split_at 46 (cat token s)) (cat-char "." "webp")
      ∙ split_at-cat 46 token "." "webp" refl plain.no_dot)

  name-no_slash :
      (extension : String) → IsExtension extension → has_char 47 (name_of token extension) ≡ false
  name-no_slash extension (inl e) = rw e (has_char-cat 47 token ".jpg" ∙ rw plain.no_slash refl)
  name-no_slash extension (inr (inl e)) =
      rw e (has_char-cat 47 token ".png" ∙ rw plain.no_slash refl)
  name-no_slash extension (inr (inr e)) =
      rw e (has_char-cat 47 token ".webp" ∙ rw plain.no_slash refl)

  is_object_name-name :
      (is_uuid : String → Bool) (extension : String)
      → IsExtension extension
      → is_uuid token ≡ true
      → is_object_name is_uuid (split_at 46 (name_of token extension)) ≡ true
  is_object_name-name is_uuid extension x u =
      rw (split_at-name extension x, u) (allowed extension x)
    where
      allowed :
          (e : String)
          → IsExtension e
          → (str_eq e "jpg" || str_eq e "png" || str_eq e "webp") ≡ true
      allowed e (inl h) = rw h refl
      allowed e (inr (inl h)) = rw h refl
      allowed e (inr (inr h)) = rw h refl

kind_Plain : (kind : Kind) → is_valid_kind kind ≡ true → Plain (kind_name kind)
unfolding is_valid_kind
kind_Plain Kind.install e = record { word = refl; no_slash = refl; no_dot = refl }
kind_Plain Kind.remove e = record { word = refl; no_slash = refl; no_dot = refl }
kind_Plain (Kind.other k) e = cc e

module _ (kind_text work_order_id cover_id name : String) (k : Plain kind_text)
    (w : Plain work_order_id) (c : Plain cover_id) (name_word : is_word name ≡ true)
    (name_slash : has_char 47 name ≡ false) where
  abbrev key : String
  key = join_path (parts_of kind_text work_order_id cover_id name)

  split_at-key : split_at 47 key ≡ parts_of kind_text work_order_id cover_id name
  split_at-key =
      split_at-join_path "evidence" _
        (refl, (refl, (k.no_slash, (w.no_slash, (c.no_slash, (name_slash, tt))))))

  cleaned :
      clean_onto [] (parts_of kind_text work_order_id cover_id name)
      ≡ name ∷ cover_id ∷ work_order_id ∷ kind_text ∷ "v1" ∷ "evidence" ∷ []
  cleaned =
      clean_onto-words [] (parts_of kind_text work_order_id cover_id name)
        (refl, (refl, (k.word, (w.word, (c.word, (name_word, tt))))))

  path_clean-key : path_clean key ≡ key
  unfolding path_clean
  path_clean-key =
      ap (λ parts. cleaned_path (clean_onto [] parts)) split_at-key ∙ ap cleaned_path cleaned

  key_word : is_word key ≡ true
  key_word =
      is_word-cat "evidence"
        (cat_all ("/" ∷ join_path ("v1" ∷ kind_text ∷ work_order_id ∷ cover_id ∷ name ∷ []) ∷ []))
        refl

abbrev built : Kind → String → String → String → String → String
built kind work_order_id cover_id token extension =
    join_path (parts_of (kind_name kind) work_order_id cover_id (name_of token extension))

built_valid :
    (is_uuid : String → Bool) (kind : Kind) (work_order_id cover_id token extension : String)
    → is_valid_kind kind ≡ true
    → is_identifier work_order_id ≡ true
    → is_identifier cover_id ≡ true
    → is_identifier token ≡ true
    → is_uuid token ≡ true
    → IsExtension extension
    → (is_valid_object_key is_uuid
          (built kind work_order_id cover_id token extension)
          kind
          work_order_id
          cover_id
        ≡ true)
      × (path_clean (built kind work_order_id cover_id token extension)
          ≡ built kind work_order_id cover_id token extension)
unfolding is_valid_object_key
built_valid is_uuid kind work_order_id cover_id token extension vk vw vc vt vu x =
    let k = kind_Plain kind vk in
    let w = is_identifier-Plain work_order_id vw in
    let c = is_identifier-Plain cover_id vc in
    let p = is_identifier-Plain token vt in
    let name = name_of token extension in
    let text = built kind work_order_id cover_id token extension in
    let word : is_word name ≡ true = is_word-cat token (cat_all ("." ∷ extension ∷ [])) p.word in
    let slash = name-no_slash token p extension x in
    let keyed : is_word text ≡ true =
      key_word (kind_name kind) work_order_id cover_id name k w c word slash in
    let clean : path_clean text ≡ text =
      path_clean-key (kind_name kind) work_order_id cover_id name k w c word slash in
    let parts : split_at 47 text ≡ parts_of (kind_name kind) work_order_id cover_id name =
      split_at-key (kind_name kind) work_order_id cover_id name k w c word slash in
    let object = is_object_name-name token p is_uuid extension x vu in
    let of_relation : is_key_of is_uuid kind work_order_id cover_id (split_at 47 text) ≡ true =
      ap (is_key_of is_uuid kind work_order_id cover_id) parts
      ∙ rw (str_eq_refl (kind_name kind), str_eq_refl work_order_id, str_eq_refl cover_id, object)
          refl in
    let same : str_eq (path_clean text) text ≡ true =
      ap (λ s. str_eq s text) clean ∙ str_eq_refl text in
    let nonempty = not_word text "" keyed refl in
    let relative = starts_with_slash-word text keyed in
    (ground (arith, vk, vw, vc, of_relation, same, nonempty, relative), clean)

-- A key that `objectKey` builds, of a token that is an identifier, is valid for the relation that it
-- was built for, and cleaning leaves it as it is.
pub object_key-valid :
    (parse : String → Option String) (is_uuid : String → Bool) (kind : Kind)
    (work_order_id cover_id content_type token object_name : String)
    → is_identifier token ≡ true
    → object_key parse is_uuid kind work_order_id cover_id content_type token ≡ some object_name
    → (is_valid_object_key is_uuid object_name kind work_order_id cover_id ≡ true)
      × (path_clean object_name ≡ object_name)
unfolding object_key
object_key-valid parse is_uuid kind work_order_id cover_id content_type token object_name t h =
    elim (Bool-cases (
      is_valid_kind kind
      && is_identifier work_order_id
      && is_identifier cover_id
      && is_uuid token)) [
        | inl e ↦ elim (Option-cases (normalize_content_type parse content_type)) [
          | inl f ↦ cc (rw (e, f) at h)
          | inr (media, f) ↦
              let extension = extension_of parse media in
              let same : built kind work_order_id cover_id token extension ≡ object_name =
                cc (rw (e, f) at h) in
              rw (sym same) (
                built_valid is_uuid kind work_order_id cover_id token extension (ground (arith, e))
                  (ground (arith, e)) (ground (arith, e)) t (ground (arith, e))
                  (extension_of-IsExtension parse media))
        ]
        | inr e ↦ cc (rw e at h)
      ]

same_parts :
    (is_uuid : String → Bool) (kind kind1 : Kind) (w w1 c c1 : String) (parts : List String)
    → is_key_of is_uuid kind w c parts ≡ true
    → is_key_of is_uuid kind1 w1 c1 parts ≡ true
    → (kind_name kind ≡ kind_name kind1) × (w ≡ w1) × (c ≡ c1)
same_parts is_uuid kind kind1 w w1 c c1 (a ∷ b ∷ k ∷ x ∷ y ∷ name ∷ []) e f = (
  sym ((eq_iff k (kind_name kind)).0 (ground (arith, e)))
      ∙ (eq_iff k (kind_name kind1)).0 (ground (arith, f)),
  sym ((eq_iff x w).0 (ground (arith, e))) ∙ (eq_iff x w1).0 (ground (arith, f)),
  sym ((eq_iff y c).0 (ground (arith, e))) ∙ (eq_iff y c1).0 (ground (arith, f)),
)
same_parts is_uuid kind kind1 w w1 c c1 _ e f = cc e

-- A key is valid for one kind, one work order and one cover only.
pub is_valid_object_key_unique :
    (is_uuid : String → Bool) (key : String) (kind kind1 : Kind) (w w1 c c1 : String)
    → is_valid_object_key is_uuid key kind w c ≡ true
    → is_valid_object_key is_uuid key kind1 w1 c1 ≡ true
    → (kind_name kind ≡ kind_name kind1) × (w ≡ w1) × (c ≡ c1)
unfolding is_valid_object_key
is_valid_object_key_unique is_uuid key kind kind1 w w1 c c1 e f =
    same_parts is_uuid kind kind1 w w1 c c1 (split_at 47 key) (ground (arith, e))
      (ground (arith, f))
