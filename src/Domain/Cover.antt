-- ===== src/Domain/Cover.antt =====
-- internal/domain/cover/status.go
use scc_backend.Base.{
  String, Bool, true, false, Option, none, some, List, [], ◌∷◌, str_eq, if◌then◌else◌,
}

pub data CoverStatus : Type 0 where
  in_stock installed retired : CoverStatus
  other : String → CoverStatus

abbrev pub status_eq : CoverStatus → CoverStatus → Bool
status_eq CoverStatus.in_stock CoverStatus.in_stock = true
status_eq CoverStatus.installed CoverStatus.installed = true
status_eq CoverStatus.retired CoverStatus.retired = true
status_eq (CoverStatus.other a) (CoverStatus.other b) = str_eq a b
status_eq _ _ = false

-- `CoverStatus.IsValid`
unfoldable pub is_valid : CoverStatus → Bool
is_valid (CoverStatus.other s) = false
is_valid _ = true

-- `validTransitions[current]`
unfoldable pub valid_transitions : CoverStatus → Option (List CoverStatus)
valid_transitions CoverStatus.in_stock = some (CoverStatus.installed ∷ CoverStatus.retired ∷ [])
valid_transitions CoverStatus.installed = some (CoverStatus.in_stock ∷ [])
valid_transitions CoverStatus.retired = some []
valid_transitions (CoverStatus.other s) = none

abbrev pub contains : CoverStatus → List CoverStatus → Bool
contains next [] = false
contains next (s ∷ allowed) = if status_eq s next then true else contains next allowed

unfoldable pub is_valid_transition : CoverStatus → CoverStatus → Bool
unfolding valid_transitions
is_valid_transition current next = elim (valid_transitions current) [
  | none ↦ false
  | some allowed ↦ contains next allowed
]
