-- ===== src/Borrow/Progress.antt =====
-- The statements of `Cancel` (lifecycle.go) on a database that fails none of them.
use scc_backend.Base.{
  ℕ, ◌≡◌, refl, ◌∙◌, inl, inr, String, Bool, true, false, ◌&&◌, ◌||◌, Option, some, count_where,
  str_eq, arith, Bool-cases,
}
use scc_backend.Domain.Borrow.{BorrowStatus, status_eq}
use scc_backend.Domain.Role.{Role, role_eq}
use scc_backend.Borrow.Lifecycle.Cancel.{after_cancel}
use scc_backend.Store.{BorrowRow}
use scc_backend.Effect.{Env, Session, ok}
use scc_backend.Effect.Succeeds.{
  Succeeds, success, Succeeds-after, Succeeds-value, Succeeds-weaken, refuse_if-Succeeds,
  after-or_fail, after-refuse_if, new_uuid-Succeeds, statement-Succeeds, query-Succeeds,
  update_rows-Succeeds, insert_unless-Succeeds,
}
use scc_backend.Borrow.Actor.{Actor, can_cancel, ensure_active_actor}
use scc_backend.Borrow.Rows.{
  Extra, find_borrow, has_status, is_active_of, load_borrow_state, lock_planning_office,
  update_borrow_status, release_reservations,
}
use scc_backend.Borrow.Events.{AuditParams, role_name, audit_actor_role, insert_audit}
use scc_backend.Borrow.Effects.{IsActiveActor, after_status, after_release, after_audit}
use scc_backend.Borrow.Lifecycle.{cancel_tx}

module _ (c : Env) (quiet : (n : ℕ) → c.fault n ≡ false) where
  ensure_active_actor-Succeeds :
      (actor : Actor) (s : Session)
      → IsActiveActor actor s.db
      → Succeeds (λ _ t. (t.db ≡ s.db) × (t.minted ≡ s.minted)) (ensure_active_actor actor c s)
  unfolding ensure_active_actor
  ensure_active_actor-Succeeds actor s h =
      Succeeds-after _ c (query-Succeeds c quiet _ s) λ found t p.
        after-or_fail _ found h.0 _ c t (p.0 ∙ h.1) (
          after-refuse_if _ _ _ c t (ground (arith, h.2, h.3))
            (refuse_if-Succeeds _ _ c t h.4 (p.1, p.2)))

  load_borrow_state-Succeeds :
      (id : String) (row : BorrowRow) (s : Session)
      → find_borrow id s.db.borrows ≡ some row
      → Succeeds
          (λ r t. (r ≡ row) × (t.db ≡ s.db) × (t.minted ≡ s.minted))
          (load_borrow_state id c s)
  unfolding load_borrow_state
  load_borrow_state-Succeeds id row s h =
      Succeeds-after _ c (query-Succeeds c quiet _ s)
        λ found t p. rw (p.0 ∙ h) (success (refl, p.1, p.2))

  lock_planning_office-Succeeds :
      (office : String) (s : Session)
      → Succeeds (λ _ t. (t.db ≡ s.db) × (t.minted ≡ s.minted)) (lock_planning_office office c s)
  unfolding lock_planning_office
  lock_planning_office-Succeeds office s = elim (Bool-cases c.is_postgres) [
    | inl e ↦ simp e (statement-Succeeds c quiet s)
    | inr e ↦ simp e (success (refl, refl))
  ]

  update_borrow_status-Succeeds :
      (id : String) (from to : BorrowStatus) (now : ℕ) (extra : Extra) (s : Session)
      → count_where (has_status id from) s.db.borrows ≡ 1
      → Succeeds
          (λ _ t. (t.db ≡ after_status id from to now extra s.db) × (t.minted ≡ s.minted))
          (update_borrow_status id from to now extra c s)
  unfolding update_borrow_status
  update_borrow_status-Succeeds id from to now extra s h =
      Succeeds-after _ c (update_rows-Succeeds c quiet _ _ s)
        λ n t p. refuse_if-Succeeds _ _ c t (ground (arith, p.0, h)) (p.1, p.2)

  release_reservations-Succeeds :
      (id : String) (expected now : ℕ) (s : Session)
      → count_where (is_active_of id) s.db.borrow_covers ≡ expected
      → Succeeds
          (λ _ t. (t.db ≡ after_release id now s.db) × (t.minted ≡ s.minted))
          (release_reservations id expected now c s)
  unfolding release_reservations
  release_reservations-Succeeds id expected now s h =
      Succeeds-after _ c (update_rows-Succeeds c quiet _ _ s)
        λ n t p. refuse_if-Succeeds _ _ c t (ground (arith, p.0, h)) (p.1, p.2)

  insert_audit-Succeeds :
      (p : AuditParams) (s : Session)
      → str_eq (audit_actor_role p.actor p.actor_role) "" ≡ false
      → count_where (λ a. str_eq a.id (c.uuid s.minted)) s.db.borrow_audit_events ≡ 0
      → Succeeds (λ _ t. t.db ≡ after_audit (c.uuid s.minted) p s.db) (insert_audit p c s)
  unfolding insert_audit
  insert_audit-Succeeds p s known fresh = after-refuse_if _ _ _ c s known (
      Succeeds-after _ c (new_uuid-Succeeds c s) λ id t q.
        Succeeds-weaken
          (insert_unless-Succeeds c quiet _ _ t (rw (q.0, q.1) (ground (arith, fresh))))
          λ _ u r. rw (r, q.0, q.1))

known_role :
    (r : Role) (b : Bool)
    → (role_eq r Role.exec || (role_eq r Role.tech && b)) ≡ true
    → str_eq (role_name r) "" ≡ false
known_role Role.admin b h = cc
known_role Role.exec b h = refl
known_role Role.tech b h = refl
known_role (Role.other r) b h = cc

can_cancel-role :
    (row : BorrowRow) (actor : Actor)
    → can_cancel row actor ≡ true
    → str_eq (role_name actor.role) "" ≡ false
unfolding can_cancel
can_cancel-role row actor h =
    known_role actor.role (str_eq actor.id row.created_by_id) (ground arith)

-- On a database that fails no statement, the transaction of `Cancel` succeeds when the actor is
-- active and may cancel the borrow, the borrow is requested or approved and is one row, its active
-- reservations are as many as it requested, and the new audit identifier is not taken: the
-- reservations are released, the borrow is cancelled, and one audit entry is added.
pub cancel_tx-succeeds :
    (id : String) (actor : Actor) (reason : Option String) (now : ℕ) (row : BorrowRow) (c : Env)
    (s : Session)
    → ((n : ℕ) → c.fault n ≡ false)
    → IsActiveActor actor s.db
    → find_borrow id s.db.borrows ≡ some row
    → can_cancel row actor ≡ true
    → (status_eq row.status BorrowStatus.requested || status_eq row.status BorrowStatus.approved)
      ≡ true
    → count_where (has_status row.id row.status) s.db.borrows ≡ 1
    → count_where (is_active_of row.id) s.db.borrow_covers ≡ row.requested_qty
    → count_where (λ a. str_eq a.id (c.uuid s.minted)) s.db.borrow_audit_events ≡ 0
    → (t : Session) × (cancel_tx id actor reason now c s ≡ (ok tt, t))
      × (t.db ≡ after_cancel id actor reason now row (c.uuid s.minted) s.db)
unfolding cancel_tx
cancel_tx-succeeds id actor reason now row c s quiet active found may early single held fresh =
    let done =
      Succeeds-value {Q = λ _ t. t.db ≡ after_cancel id actor reason now row (c.uuid s.minted) s.db}
        _
        (Succeeds-after _ c (ensure_active_actor-Succeeds c quiet actor s active) λ _ t p.
          Succeeds-after _ c (load_borrow_state-Succeeds c quiet id row t (rw p.0 found)) λ r t1 p1.
            after-refuse_if _ _ _ c t1 (rw p1.0 (ground (arith, may))) (
              after-refuse_if _ _ _ c t1 (rw p1.0 (ground (arith, early))) (
                Succeeds-after _ c (lock_planning_office-Succeeds c quiet _ t1) λ _ t2 p2.
                  let start : t2.db ≡ s.db = cc in
                  let minted : t2.minted ≡ s.minted = cc in
                  Succeeds-after _ c
                    (release_reservations-Succeeds c quiet r.id r.requested_qty now t2
                      (rw (start, p1.0) held))
                    λ _ t3 p3.
                      Succeeds-after _ c
                        (update_borrow_status-Succeeds c quiet r.id r.status _ now _ t3
                          (rw (p3.0, start, p1.0) single))
                        λ _ t4 p4.
                          let mint : t4.minted ≡ s.minted = cc in
                          Succeeds-weaken
                            (insert_audit-Succeeds c quiet _ t4 (can_cancel-role row actor may)
                              (rw (mint, p4.0, p3.0, start) fresh))
                            λ _ t5 p5. rw (p5, mint, p4.0, p3.0, start, p1.0)))) in
    (done.1.0, done.1.1, done.1.2)
