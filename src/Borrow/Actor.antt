-- ===== src/Borrow/Actor.antt =====
-- Who may act: the checks of service.go and lifecycle.go on the authenticated actor, and the texts
-- that come with a request.
use scc_backend.Base.{
  ℕ, String, Bool, true, false, not, ◌&&◌, ◌||◌, Option, none, some, str_eq, ltb, trim_space,
  rune_count, take_where,
}
use scc_backend.Domain.Role.{Role, role_eq, is_valid, requires_office}
use scc_backend.Store.{BorrowRow}
use scc_backend.Effect.{Error, Action, ◌>>=◌, ◌>>◌, pure, refuse_if, query, or_fail}

pub record Actor : Type 0 where
  pub id : String
  pub role : Role
  pub office_id : Option String

abbrev is_clean : String → Bool
is_clean s = not (str_eq s "") && str_eq s (trim_space s)

abbrev is_clean_option : Option String → Bool
is_clean_option none = false
is_clean_option (some s) = is_clean s

-- Both are present and equal.
abbrev pub same_office : Option String → Option String → Bool
same_office (some a) (some b) = str_eq a b
same_office _ _ = false

-- `validateActorClaims`
unfoldable pub validate_actor_claims : Actor → Action (Unit {0})
validate_actor_claims actor = do
  refuse_if (not (is_clean actor.id) || not (is_valid actor.role)) Error.forbidden
  refuse_if (requires_office actor.role && not (is_clean_option actor.office_id)) Error.forbidden

-- `ensureActiveActorTx`: the actor is an active user with the claimed role and, where the role
-- needs one, the claimed office.
unfoldable pub ensure_active_actor : Actor → Action (Unit {0})
ensure_active_actor actor = do
  found ← query (λ db. take_where (λ u. str_eq u.id actor.id) db.users)
  row ← or_fail found Error.forbidden
  refuse_if (not row.is_active || not (role_eq row.role actor.role)) Error.forbidden
  refuse_if (requires_office actor.role && not (same_office actor.office_id row.office_id))
      Error.forbidden

-- `isExecOfOffice`
unfoldable pub is_exec_of_office : Actor → String → Bool
is_exec_of_office actor office_id =
    role_eq actor.role Role.exec && same_office actor.office_id (some office_id)

-- `canCancel`
unfoldable pub can_cancel : BorrowRow → Actor → Bool
can_cancel row actor =
    same_office actor.office_id (some row.borrower_office_id)
    && (role_eq actor.role Role.exec
        || (role_eq actor.role Role.tech && str_eq actor.id row.created_by_id))

-- `canSupportOrLenderExec`
unfoldable pub can_support_or_lender_exec : BorrowRow → Actor → Bool
unfolding is_exec_of_office
can_support_or_lender_exec row actor =
    role_eq actor.role Role.admin || is_exec_of_office actor row.lender_office_id

-- `normalizeReason`
unfoldable pub normalize_reason : String → Bool → Action (Option String)
normalize_reason reason required =
    let normalized = trim_space reason in
    do
      refuse_if (required && str_eq normalized "") Error.validation
      refuse_if (not (str_eq normalized "") && ltb 500 (rune_count normalized)) Error.validation
      pure (elim (str_eq normalized "") [ true ↦ none | false ↦ some normalized ])

-- `normalizeSupportReason`
unfoldable pub normalize_support_reason : Actor → String → Action (Option String)
unfolding normalize_reason
normalize_support_reason actor reason = normalize_reason reason (role_eq actor.role Role.admin)

-- `actorCanRead`
unfoldable pub actor_can_read : Actor → String → String → Bool
actor_can_read actor borrower_office_id lender_office_id =
    role_eq actor.role Role.admin
    || same_office actor.office_id (some borrower_office_id)
    || same_office actor.office_id (some lender_office_id)

-- `normalizeOptionalText`
unfoldable pub normalize_optional_text : Option String → ℕ → Action (Option String)
normalize_optional_text none max_length = pure none
normalize_optional_text (some value) max_length =
    let normalized = trim_space value in
    do
      refuse_if (not (str_eq normalized "") && ltb max_length (rune_count normalized))
          Error.validation
      pure (elim (str_eq normalized "") [ true ↦ none | false ↦ some normalized ])
