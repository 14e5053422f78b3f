-- ===== src/Borrow/Reads.antt =====
-- GetByID of service.go: what an actor may read.
use scc_backend.Base.{
  ◌≡◌, refl, sym, ap, ◌∙◌, ◌⊎◌, inl, inr, String, true, false, not, ◌&&◌, ◌||◌, Option, none, some,
  arith, trim_space, take_where, str_eq, eq_iff, Bool-cases,
}
use scc_backend.Domain.Role.{Role, role_eq, is_valid, requires_office}
use scc_backend.Store.{Db, User}
use scc_backend.Effect.{Error, Action, Env, Session, ok, ◌>>=◌, ◌>>◌, pure, refuse_if, or_fail, ask}
use scc_backend.Effect.Ensures.{
  On, value, On-holds, On-after, On-weaken, refuse_if_rule, query_rule, or_fail_rule, ask_rule,
}
use scc_backend.Borrow.Actor.{
  Actor, validate_actor_claims, ensure_active_actor, actor_can_read, same_office,
}
use scc_backend.Borrow.Rows.{find_borrow}
use scc_backend.Borrow.Detail.{
  Borrow, CanonicalRow, canonical_of, borrow_from_canonical_row, with_covers, find_by_id,
}
use scc_backend.Borrow.Detail.Covers.{ShowsCovers, list_cover_summaries_rule}
use scc_backend.Borrow.Effects.{IsActiveActor, ensure_active_actor_rule}

-- `ensureReadableActor`
unfoldable pub ensure_readable_actor : Actor → Action (Unit {0})
ensure_readable_actor actor = validate_actor_claims actor >> ensure_active_actor actor

-- `GetByID`
unfoldable pub get_by_id : String → Actor → Action Borrow
unfolding ensure_readable_actor
get_by_id id actor = do
  is_configured ← ask (λ c. c.has_repo && c.has_db)
  refuse_if (not is_configured) Error.not_configured
  ensure_readable_actor actor
  found ← find_by_id (trim_space id)
  b ← or_fail found Error.not_found
  refuse_if (not (actor_can_read actor b.borrower_office.id b.lender_office.id)) Error.forbidden
  pure b

-- The claims of an actor whose role is known.
abbrev pub IsKnown : Actor → Type 0
IsKnown actor = is_valid actor.role ≡ true

validate_actor_claims_rule :
    (actor : Actor) (c : Env) (s : Session)
    → On (λ _ t. (t.db ≡ s.db) × IsKnown actor) (validate_actor_claims actor c s)
unfolding validate_actor_claims
validate_actor_claims_rule actor c s =
    On-after _ c (refuse_if_rule _ _ c s)
      λ _ t p. On-weaken (refuse_if_rule _ _ c t) λ _ t1 p1. (cc, ground (arith, p.0))

-- The stored user behind the actor is an active administrator, or active in one of the two offices.
abbrev pub MayRead : Actor → String → String → Db → Type 0
MayRead actor borrower lender db =
    (u : User) × (take_where (λ r. str_eq r.id actor.id) db.users ≡ some u)
    × (u.is_active ≡ true)
    × ((u.role ≡ Role.admin) ⊎ ((u.office_id ≡ some borrower) ⊎ (u.office_id ≡ some lender)))

admin_role : (r : Role) → role_eq r Role.admin ≡ true → r ≡ Role.admin
admin_role Role.admin h = refl
admin_role Role.exec h = cc h
admin_role Role.tech h = cc h
admin_role (Role.other r) h = cc h

by_office :
    (claimed stored : Option String) (borrower lender : String)
    → same_office claimed stored ≡ true
    → (same_office claimed (some borrower) || same_office claimed (some lender)) ≡ true
    → (stored ≡ some borrower) ⊎ (stored ≡ some lender)
by_office none stored borrower lender h k = cc k
by_office (some a) none borrower lender h k = cc h
by_office (some a) (some b) borrower lender h k = elim (Bool-cases (str_eq a borrower)) [
  | inl e ↦ inl (ap (λ x. some x) (sym ((eq_iff a b).0 h) ∙ (eq_iff a borrower).0 e))
  | inr e ↦ inr (ap (λ x. some x) (sym ((eq_iff a b).0 h) ∙ (eq_iff a lender).0 (rw e at k)))
]

by_role :
    (role stored : Role) (claimed office : Option String) (borrower lender : String)
    → is_valid role ≡ true
    → role_eq stored role ≡ true
    → (requires_office role && not (same_office claimed office)) ≡ false
    → (role_eq role Role.admin
        || same_office claimed (some borrower)
        || same_office claimed (some lender))
      ≡ true
    → (stored ≡ Role.admin) ⊎ ((office ≡ some borrower) ⊎ (office ≡ some lender))
unfolding is_valid requires_office
by_role Role.admin stored claimed office borrower lender v e n h = inl (admin_role stored e)
by_role Role.exec stored claimed office borrower lender v e n h =
    inr (by_office claimed office borrower lender (ground (arith, n)) (ground (arith, h)))
by_role Role.tech stored claimed office borrower lender v e n h =
    inr (by_office claimed office borrower lender (ground (arith, n)) (ground (arith, h)))
by_role (Role.other r) stored claimed office borrower lender v e n h = cc v

may_read :
    (actor : Actor) (borrower lender : String) (db : Db)
    → IsKnown actor
    → IsActiveActor actor db
    → actor_can_read actor borrower lender ≡ true
    → MayRead actor borrower lender db
unfolding actor_can_read
may_read actor borrower lender db known active h = (
  active.0,
  active.1,
  active.2,
  by_role actor.role active.0.role actor.office_id active.0.office_id borrower lender known active.3
      active.4 h,
)

-- The view is of the row that was found: its terms are the row's, its offices those of the join, and
-- its covers those that the borrow is linked to.
abbrev pub IsViewOf : String → Db → Option CanonicalRow → Option Borrow → Type 0
IsViewOf id db none none = Unit
IsViewOf id db none (some b) = (true ≡ false)
IsViewOf id db (some x) none = (true ≡ false)
IsViewOf id db (some x) (some b) =
    (b ≡ borrow_from_canonical_row x b.covers) × ShowsCovers id db b.covers

with_covers_rule :
    (id : String) (x : Option CanonicalRow) (c : Env) (s : Session)
    → On (λ b t. (t.db ≡ s.db) × IsViewOf id s.db x b) (with_covers id x c s)
unfolding with_covers borrow_from_canonical_row
with_covers_rule id none c s = value (refl, tt)
with_covers_rule id (some x) c s =
    On-after _ c (list_cover_summaries_rule id c s) λ covers t p. value (p.0, (refl, p.1))

find_by_id_rule :
    (id : String) (c : Env) (s : Session)
    → On
        (λ b t.
          (t.db ≡ s.db) × IsViewOf id s.db (canonical_of s.db (find_borrow id s.db.borrows)) b)
        (find_by_id id c s)
unfolding find_by_id
find_by_id_rule id c s = On-after _ c (query_rule _ c s) λ found t p.
    On-weaken (with_covers_rule id found c t) λ b t1 p1. (p1.0 ∙ p.1, rw (p.0, p.1) at p1.1)

-- When `GetByID` returns a borrow, the actor is an active user with the claimed role and office, and
-- the stored user is an administrator or of one of the borrow's two offices. The borrow is the view
-- of the row with that id: each cover with a row is in it as often as a link of this borrow names it,
-- no other cover is, and each summary shows its cover's row. Nothing has changed.
pub get_by_id-IsViewOf :
    (id : String) (actor : Actor) (c : Env) (s t : Session) (b : Borrow)
    → get_by_id id actor c s ≡ (ok b, t)
    → IsActiveActor actor s.db
      × (actor_can_read actor b.borrower_office.id b.lender_office.id ≡ true)
      × MayRead actor b.borrower_office.id b.lender_office.id s.db
      × IsViewOf
          (trim_space id)
          s.db
          (canonical_of s.db (find_borrow (trim_space id) s.db.borrows))
          (some b)
      × (t.db ≡ s.db)
unfolding get_by_id ensure_readable_actor
get_by_id-IsViewOf id actor c s t b h =
    On-holds
      {Q = λ b t.
        IsActiveActor actor s.db
        × (actor_can_read actor b.borrower_office.id b.lender_office.id ≡ true)
        × MayRead actor b.borrower_office.id b.lender_office.id s.db
        × IsViewOf (trim_space id) s.db
            (canonical_of s.db (find_borrow (trim_space id) s.db.borrows)) (some b)
        × (t.db ≡ s.db)}
      b t
      (On-after _ c (ask_rule (λ x. x.has_repo && x.has_db) c s) λ configured u1 p1.
        On-after _ c (refuse_if_rule _ _ c u1) λ _ u2 p2.
          On-after _ c
            (On-after {Q = λ _ u. (u.db ≡ u2.db) × IsActiveActor actor u2.db × IsKnown actor} _ c
              (validate_actor_claims_rule actor c u2)
              λ _ v q.
                On-weaken (ensure_active_actor_rule actor c v)
                  λ _ w r. (r.0 ∙ q.0, rw q.0 at r.1, q.1))
            λ _ u3 p3. On-after _ c (find_by_id_rule _ c u3) λ found u4 p4.
              On-after _ c (or_fail_rule found _ c u4) λ x u5 p5.
                On-after _ c (refuse_if_rule _ _ c u5) λ _ u6 p6.
                  let start : u2.db ≡ s.db = cc in
                  let here : u3.db ≡ s.db = cc in
                  let active = rw start at p3.1 in
                  let can : actor_can_read actor x.borrower_office.id x.lender_office.id ≡ true =
                    ground arith in
                  value (
                    active,
                    can,
                    may_read actor x.borrower_office.id x.lender_office.id s.db p3.2 active can,
                    rw (here, p5.0) at p4.1,
                    cc,
                  ))
      h
