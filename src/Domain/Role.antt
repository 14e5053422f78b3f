-- ===== src/Domain/Role.antt =====
-- internal/domain/user/role.go
use scc_backend.Base.{String, Bool, true, false, str_eq, ◌||◌}

pub data Role : Type 0 where
  admin exec tech : Role
  other : String → Role

abbrev pub role_eq : Role → Role → Bool
role_eq Role.admin Role.admin = true
role_eq Role.exec Role.exec = true
role_eq Role.tech Role.tech = true
role_eq (Role.other a) (Role.other b) = str_eq a b
role_eq _ _ = false

-- `Role.IsValid`
unfoldable pub is_valid : Role → Bool
is_valid (Role.other r) = false
is_valid _ = true

-- `Role.RequiresOffice`
unfoldable pub requires_office : Role → Bool
requires_office r = role_eq r Role.exec || role_eq r Role.tech
