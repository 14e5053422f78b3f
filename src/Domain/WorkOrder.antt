-- ===== src/Domain/WorkOrder.antt =====
-- internal/domain/workorder/status.go
use scc_backend.Base.{
  String, Bool, true, false, Option, none, some, List, [], ◌∷◌, str_eq, if◌then◌else◌,
}

pub data WorkOrderStatus : Type 0 where
  scheduled active removal_due removing completed cancelled : WorkOrderStatus
  other : String → WorkOrderStatus

pub data WorkOrderType : Type 0 where
  install remove : WorkOrderType
  other : String → WorkOrderType

pub data UsageType : Type 0 where
  customer_cover internal : UsageType
  other : String → UsageType

-- `UsageType.IsValid`
unfoldable pub is_valid_usage : UsageType → Bool
is_valid_usage (UsageType.other u) = false
is_valid_usage _ = true

abbrev pub status_eq : WorkOrderStatus → WorkOrderStatus → Bool
status_eq WorkOrderStatus.scheduled WorkOrderStatus.scheduled = true
status_eq WorkOrderStatus.active WorkOrderStatus.active = true
status_eq WorkOrderStatus.removal_due WorkOrderStatus.removal_due = true
status_eq WorkOrderStatus.removing WorkOrderStatus.removing = true
status_eq WorkOrderStatus.completed WorkOrderStatus.completed = true
status_eq WorkOrderStatus.cancelled WorkOrderStatus.cancelled = true
status_eq (WorkOrderStatus.other a) (WorkOrderStatus.other b) = str_eq a b
status_eq _ _ = false

abbrev pub type_eq : WorkOrderType → WorkOrderType → Bool
type_eq WorkOrderType.install WorkOrderType.install = true
type_eq WorkOrderType.remove WorkOrderType.remove = true
type_eq (WorkOrderType.other a) (WorkOrderType.other b) = str_eq a b
type_eq _ _ = false

-- `validTransitions[current]`
unfoldable pub valid_transitions : WorkOrderStatus → Option (List WorkOrderStatus)
valid_transitions WorkOrderStatus.scheduled =
    some (WorkOrderStatus.active ∷ WorkOrderStatus.cancelled ∷ [])
valid_transitions WorkOrderStatus.active =
    some (WorkOrderStatus.removal_due ∷ WorkOrderStatus.removing ∷ [])
valid_transitions WorkOrderStatus.removal_due = some (WorkOrderStatus.removing ∷ [])
valid_transitions WorkOrderStatus.removing = some (WorkOrderStatus.completed ∷ [])
valid_transitions WorkOrderStatus.completed = some []
valid_transitions WorkOrderStatus.cancelled = some []
valid_transitions (WorkOrderStatus.other s) = none

abbrev pub contains : WorkOrderStatus → List WorkOrderStatus → Bool
contains next [] = false
contains next (s ∷ allowed) = if status_eq s next then true else contains next allowed

unfoldable pub is_valid_transition : WorkOrderStatus → WorkOrderStatus → Bool
unfolding valid_transitions
is_valid_transition current next = elim (valid_transitions current) [
  | none ↦ false
  | some allowed ↦ contains next allowed
]

-- `CanAssign`
unfoldable pub can_assign : WorkOrderStatus → Bool
can_assign WorkOrderStatus.scheduled = true
can_assign WorkOrderStatus.active = true
can_assign WorkOrderStatus.removal_due = true
can_assign WorkOrderStatus.removing = true
can_assign _ = false
