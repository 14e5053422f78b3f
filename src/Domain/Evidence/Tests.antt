-- ===== src/Domain/Evidence/Tests.antt =====
-- Keys of photos at concrete relations.
use scc_backend.Base.{◌≡◌, refl, String, true, some, rune_count, trim_space, to_lower_ascii}
use scc_backend.Domain.Evidence.{
  Kind, kind_name, is_valid_kind, is_identifier, path_clean, is_valid_object_key,
  normalize_content_type, object_key,
}
use scc_backend.Domain.Evidence.Keys.{object_key-valid, is_valid_object_key_unique}

abbrev photo : String
photo = "evidence/v1/remove/w1/c1/0b5e.png"

abbrev work_order : String
work_order = "w1"

abbrev cover : String
cover = "c1"

object_key-valid_example :
    (is_valid_object_key (λ s. true) photo Kind.remove "w1" "c1" ≡ true)
    × (path_clean photo ≡ photo)
unfolding object_key is_valid_kind is_identifier rune_count normalize_content_type trim_space
    to_lower_ascii
object_key-valid_example =
    object_key-valid (λ s. some s) (λ s. true) Kind.remove "w1" "c1" " image/PNG " "0b5e" photo refl
      refl

is_valid_object_key_unique_example :
    (kind_name Kind.remove ≡ kind_name Kind.remove) × (work_order ≡ work_order) × (cover ≡ cover)
unfolding is_valid_object_key is_valid_kind is_identifier rune_count path_clean
is_valid_object_key_unique_example =
    is_valid_object_key_unique (λ s. true) photo Kind.remove Kind.remove work_order work_order cover
      cover refl refl
