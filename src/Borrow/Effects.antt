-- ===== src/Borrow/Effects.antt =====
-- What each statement of the borrow service ensures when it succeeds.
use scc_backend.Base.{
  ℕ, ◌≡◌, refl, String, Bool, true, false, not, ◌&&◌, some, List, ◌∷◌, map, str_eq, ltb,
  count_where, take_where, select_where, update_where, order_by, arith, Bool-cases, inl, inr,
}
use scc_backend.Domain.Role.{role_eq, requires_office}
use scc_backend.Domain.Borrow.{BorrowStatus}
use scc_backend.Store.{Db, User, BorrowRow, OutboxRow}
use scc_backend.Effect.{Env, Session}
use scc_backend.Effect.Ensures.{
  On, value, On-after, On-weaken, refuse_if_rule, statement_rule, query_rule, update_rows_rule,
  insert_unless_rule, or_fail_rule, new_uuid_rule, ask_rule,
}
use scc_backend.Borrow.Actor.{Actor, same_office, ensure_active_actor}
use scc_backend.Borrow.Rows.{
  find_borrow, load_borrow_state, lock_planning_office, update_borrow_status, has_status,
  with_status, Extra, is_active_of, released, release_reservations, is_link_of,
  reservation_cover_ids, find_cover, lock_cover_state, has_open_installation,
}
use scc_backend.Borrow.Capacity.{open_installations}
use scc_backend.Borrow.Events.{
  AuditParams, audit_row, insert_audit, outbox_row, add_outbox, enqueue_notification, outbox_key,
  enqueue_creator_notification,
}

-- The actor is an active user with the claimed role, and the claimed office where the role needs one.
abbrev pub IsActiveActor : Actor → Db → Type 0
IsActiveActor actor db =
    (u : User) × (take_where (λ r. str_eq r.id actor.id) db.users ≡ some u)
    × (u.is_active ≡ true)
    × (role_eq u.role actor.role ≡ true)
    × ((requires_office actor.role && not (same_office actor.office_id u.office_id)) ≡ false)

pub ensure_active_actor_rule :
    (actor : Actor) (c : Env) (s : Session)
    → On (λ _ t. (t.db ≡ s.db) × IsActiveActor actor s.db) (ensure_active_actor actor c s)
unfolding ensure_active_actor
ensure_active_actor_rule actor c s = On-after _ c (query_rule _ c s) λ found t p.
    On-after _ c (or_fail_rule found _ c t) λ u t1 p1.
      On-after _ c (refuse_if_rule _ _ c t1) λ _ t2 p2.
        On-weaken (refuse_if_rule _ _ c t2)
          λ _ t3 p3. (cc, (u, cc, ground arith, ground arith, p3.0))

pub load_borrow_state_rule :
    (id : String) (c : Env) (s : Session)
    → On
        (λ row t. (t.db ≡ s.db) × (find_borrow id s.db.borrows ≡ some row))
        (load_borrow_state id c s)
unfolding load_borrow_state
load_borrow_state_rule id c s =
    On-after _ c (query_rule _ c s)
      λ found t p. On-weaken (or_fail_rule found _ c t) λ row t1 p1. (cc, cc)

pub lock_planning_office_rule :
    (office : String) (c : Env) (s : Session)
    → On (λ _ t. t.db ≡ s.db) (lock_planning_office office c s)
unfolding lock_planning_office
lock_planning_office_rule office c s = elim (Bool-cases c.is_postgres) [
  | inl e ↦ simp e (On-weaken (statement_rule c s) (λ _ t p. p.0))
  | inr e ↦ simp e (value refl)
]

-- The tables after an UPDATE or an INSERT of the borrow service.
abbrev pub after_status : String → BorrowStatus → BorrowStatus → ℕ → Extra → Db → Db
after_status id from to now extra db = record db {
  borrows = update_where (has_status id from) (with_status to now extra) db.borrows;
}

abbrev pub after_release : String → ℕ → Db → Db
after_release id now db = record db {
  borrow_covers = update_where (is_active_of id) (released now) db.borrow_covers;
}

abbrev pub after_audit : String → AuditParams → Db → Db
after_audit id p db = record db { borrow_audit_events = audit_row id p ∷ db.borrow_audit_events }

abbrev pub after_enqueue : OutboxRow → Db → Db
after_enqueue o db = record db { outbox = add_outbox o db.outbox }

pub update_borrow_status_rule :
    (id : String) (from to : BorrowStatus) (now : ℕ) (extra : Extra) (c : Env) (s : Session)
    → On
        (λ _ t.
          (count_where (has_status id from) s.db.borrows ≡ 1)
          × (t.db ≡ after_status id from to now extra s.db))
        (update_borrow_status id from to now extra c s)
unfolding update_borrow_status
update_borrow_status_rule id from to now extra c s =
    On-after _ c (update_rows_rule _ _ c s)
      λ n t p. On-weaken (refuse_if_rule _ _ c t) λ _ t1 p1. (ground arith, cc)

pub release_reservations_rule :
    (id : String) (expected now : ℕ) (c : Env) (s : Session)
    → On
        (λ _ t.
          (count_where (is_active_of id) s.db.borrow_covers ≡ expected)
          × (t.db ≡ after_release id now s.db))
        (release_reservations id expected now c s)
unfolding release_reservations
release_reservations_rule id expected now c s =
    On-after _ c (update_rows_rule _ _ c s)
      λ n t p. On-weaken (refuse_if_rule _ _ c t) λ _ t1 p1. (ground arith, cc)

-- The cover ids of a borrow's links, in the database's order.
abbrev pub ordered_cover_ids : (String → String → Bool) → String → Bool → Db → List String
ordered_cover_ids before id active_only db =
    map (λ l. l.cover_id)
      (order_by (λ a b. before a.cover_id b.cover_id)
        (select_where (is_link_of id active_only) db.borrow_covers))

pub reservation_cover_ids_rule :
    (id : String) (active_only : Bool) (c : Env) (s : Session)
    → On
        (λ ids t. (ids ≡ ordered_cover_ids c.before id active_only s.db) × (t.db ≡ s.db))
        (reservation_cover_ids id active_only c s)
unfolding reservation_cover_ids
reservation_cover_ids_rule id active_only c s =
    On-after _ c (ask_rule (λ e. e.before) c s)
      λ f t p. On-weaken (query_rule _ c t) λ ids t1 p1. (ground arith, cc)

pub lock_cover_state_rule :
    (id : String) (c : Env) (s : Session)
    → On (λ r t. (t.db ≡ s.db) × (find_cover id s.db.covers ≡ some r)) (lock_cover_state id c s)
unfolding lock_cover_state
lock_cover_state_rule id c s =
    On-after _ c (query_rule _ c s)
      λ found t p. On-weaken (or_fail_rule found _ c t) λ row t1 p1. (cc, cc)

pub has_open_installation_rule :
    (id : String) (c : Env) (s : Session)
    → On
        (λ b t. (t.db ≡ s.db) × (b ≡ ltb 0 (open_installations id s.db.installations)))
        (has_open_installation id c s)
unfolding has_open_installation
has_open_installation_rule id c s = On-weaken (query_rule _ c s) λ b t p. (p.1, p.0)

pub insert_audit_rule :
    (p : AuditParams) (c : Env) (s : Session)
    → On (λ _ t. (id : String) × (t.db ≡ after_audit id p s.db)) (insert_audit p c s)
unfolding insert_audit
insert_audit_rule p c s = On-after _ c (refuse_if_rule _ _ c s) λ _ t p1.
    On-after _ c (new_uuid_rule c t)
      λ id t1 p2. On-weaken (insert_unless_rule _ _ c t1) λ _ t2 p3. (id, cc)

-- The outbox row that tells a borrow's creator of an event.
abbrev pub creator_row : String → BorrowRow → String → String → String → ℕ → OutboxRow
creator_row id row kind message event now =
    outbox_row id row.id row.created_by_id kind message (outbox_key row.id event row.created_by_id)
      now

pub enqueue_notification_rule :
    (borrow_id recipient kind message key : String) (now : ℕ) (c : Env) (s : Session)
    → On
        (λ _ t.
          (id : String) × (t.db
            ≡ after_enqueue (outbox_row id borrow_id recipient kind message key now) s.db))
        (enqueue_notification borrow_id recipient kind message key now c s)
unfolding enqueue_notification
enqueue_notification_rule borrow_id recipient kind message key now c s =
    On-after _ c (new_uuid_rule c s)
      λ id t1 p2. On-weaken (insert_unless_rule _ _ c t1) λ _ t2 p3. (id, cc)

pub enqueue_creator_notification_rule :
    (row : BorrowRow) (kind message event : String) (now : ℕ) (c : Env) (s : Session)
    → On
        (λ _ t.
          (id : String) × (t.db ≡ after_enqueue (creator_row id row kind message event now) s.db))
        (enqueue_creator_notification row kind message event now c s)
unfolding enqueue_creator_notification
enqueue_creator_notification_rule row kind message event now c s =
    enqueue_notification_rule row.id row.created_by_id kind message
      (outbox_key row.id event row.created_by_id) now c s
