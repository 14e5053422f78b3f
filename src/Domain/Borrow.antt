-- ===== src/Domain/Borrow.antt =====
-- internal/domain/borrow/status.go
use scc_backend.Base.{
  String, Bool, true, false, Option, none, some, List, [], ◌∷◌, str_eq, if◌then◌else◌, is_some, ◌≡◌,
  refl, ap, arith, eq_iff, str_eq_refl,
}

pub data BorrowStatus : Type 0 where
  requested approved on_loan returned rejected cancelled overdue : BorrowStatus
  other : String → BorrowStatus

abbrev pub status_eq : BorrowStatus → BorrowStatus → Bool
status_eq BorrowStatus.requested BorrowStatus.requested = true
status_eq BorrowStatus.approved BorrowStatus.approved = true
status_eq BorrowStatus.on_loan BorrowStatus.on_loan = true
status_eq BorrowStatus.returned BorrowStatus.returned = true
status_eq BorrowStatus.rejected BorrowStatus.rejected = true
status_eq BorrowStatus.cancelled BorrowStatus.cancelled = true
status_eq BorrowStatus.overdue BorrowStatus.overdue = true
status_eq (BorrowStatus.other a) (BorrowStatus.other b) = str_eq a b
status_eq _ _ = false

-- `validTransitions[current]`
unfoldable pub valid_transitions : BorrowStatus → Option (List BorrowStatus)
valid_transitions BorrowStatus.requested =
    some (BorrowStatus.approved ∷ BorrowStatus.rejected ∷ BorrowStatus.cancelled ∷ [])
valid_transitions BorrowStatus.approved = some (BorrowStatus.on_loan ∷ BorrowStatus.cancelled ∷ [])
valid_transitions BorrowStatus.on_loan = some (BorrowStatus.returned ∷ BorrowStatus.overdue ∷ [])
valid_transitions BorrowStatus.overdue = some (BorrowStatus.returned ∷ [])
valid_transitions BorrowStatus.returned = some []
valid_transitions BorrowStatus.rejected = some []
valid_transitions BorrowStatus.cancelled = some []
valid_transitions (BorrowStatus.other s) = none

-- `BorrowStatus.IsValid`
unfoldable pub is_valid : BorrowStatus → Bool
unfolding valid_transitions
is_valid s = is_some (valid_transitions s)

abbrev pub contains : BorrowStatus → List BorrowStatus → Bool
contains next [] = false
contains next (s ∷ allowed) = if status_eq s next then true else contains next allowed

unfoldable pub is_valid_transition : BorrowStatus → BorrowStatus → Bool
unfolding valid_transitions
is_valid_transition current next = elim (valid_transitions current) [
  | none ↦ false
  | some allowed ↦ contains next allowed
]

pub eq_of_status_eq : (a b : BorrowStatus) → status_eq a b ≡ true → a ≡ b
eq_of_status_eq BorrowStatus.requested b h = ground arith
eq_of_status_eq (BorrowStatus.other s) b h = by_name b h
  where
    by_name :
        (b : BorrowStatus) → status_eq (BorrowStatus.other s) b ≡ true → BorrowStatus.other s ≡ b
    by_name (BorrowStatus.other t) h = ap BorrowStatus.other ((eq_iff s t).0 h)
    by_name BorrowStatus.requested h = cc
    by_name _ h = cc
eq_of_status_eq _ b h = ground arith

pub status_eq_refl : (s : BorrowStatus) → status_eq s s ≡ true
status_eq_refl (BorrowStatus.other s) = str_eq_refl s
status_eq_refl BorrowStatus.requested = refl
status_eq_refl _ = refl
