-- ===== src/Borrow/Lifecycle/Simple.antt =====
-- What `changeSimpleState` has done when its transaction commits.
use scc_backend.Base.{
  ℕ, ◌≡◌, refl, subst, sym, ap, ◌∙◌, ◌&&◌, ◌||◌, String, true, not, some, inl, inr, str_eq,
  count_where, if◌then◌else◌, arith, Bool-cases, to_lower_ascii,
}
use scc_backend.Domain.Borrow.{status_eq, eq_of_status_eq, is_valid_transition}
use scc_backend.Store.{Db, BorrowRow, OutboxRow}
use scc_backend.Borrow.Events.{add_outbox}
use scc_backend.Effect.{Env, Session}
use scc_backend.Effect.Ensures.{On, value, On-after, On-weaken, refuse_if_rule}
use scc_backend.Borrow.Consistency.{holds_reservations}
use scc_backend.Borrow.Consistency.Lookup.{find_borrow-own}
use scc_backend.Borrow.Consistency.Moves.{LinksMove, OutboxGrows, Moved}
use scc_backend.Borrow.Rows.{find_borrow, is_active_of}
use scc_backend.Borrow.Effects.{
  IsActiveActor, ensure_active_actor_rule, load_borrow_state_rule, lock_planning_office_rule,
  release_reservations_rule, update_borrow_status_rule, insert_audit_rule,
  enqueue_creator_notification_rule, after_status, after_release, after_audit, creator_row,
}
use scc_backend.Borrow.Lifecycle.{
  SimpleStateChange, simple_state_tx, release_step, tell_step, audit_of,
}

module _ (change : SimpleStateChange) (now : ℕ) where
  abbrev pub after_releasing : BorrowRow → Db → Db
  after_releasing row db = record db {
    borrow_covers =
        if change.releases_reservations
        then (after_release row.id now db).borrow_covers
        else db.borrow_covers;
  }

  abbrev pub told : BorrowRow → String → OutboxRow
  told row id =
      creator_row id row change.notification_type change.notification_text
        (to_lower_ascii change.action) now

  abbrev pub after_telling : BorrowRow → String → Db → Db
  after_telling row id db = record db {
    outbox =
        if str_eq change.notification_type ""
        then db.outbox
        else add_outbox (told row id) db.outbox;
  }

  abbrev pub after_change : BorrowRow → String → String → Db → Db
  after_change row audit_id outbox_id db = after_telling row outbox_id (
      after_audit audit_id
        (audit_of row.id change.action change.from change.to change.actor change.reason now)
        (after_status row.id change.from change.to now (change.extra_updates change.actor)
          (after_releasing row db)))

  -- The reservations that are released are as many as the borrow requested.
  abbrev pub ReleasesAll : BorrowRow → Db → Type 0
  ReleasesAll row db =
      change.releases_reservations ≡ true
      → count_where (is_active_of row.id) db.borrow_covers ≡ row.requested_qty

  release_step_rule :
      (row : BorrowRow) (c : Env) (s : Session)
      → On
          (λ _ t. ReleasesAll row s.db × (t.db ≡ after_releasing row s.db))
          (release_step change now row c s)
  unfolding release_step
  release_step_rule row c s = elim (Bool-cases change.releases_reservations) [
    | inl e ↦ simp e (
        On-after _ c (lock_planning_office_rule row.lender_office_id c s) λ _ t p.
          On-weaken (release_reservations_rule row.id row.requested_qty now c t)
            λ _ u q. (λ r. rw p at q.0, cc))
    | inr e ↦ simp e (value (λ r. cc, refl))
  ]

  tell_step_rule :
      (row : BorrowRow) (c : Env) (s : Session)
      → On
          (λ _ t. (id : String) × (t.db ≡ after_telling row id s.db))
          (tell_step change now row c s)
  unfolding tell_step
  tell_step_rule row c s = elim (Bool-cases (str_eq change.notification_type "")) [
    | inl e ↦ simp e (value ("", refl))
    | inr e ↦ simp e (enqueue_creator_notification_rule row _ _ _ now c s)
  ]

  -- What the transaction has done, from `before` to `after`, when it commits.
  pub record SimpleDone (before after : Db) : Type 0 where
    pub row : BorrowRow
    pub audit_id : String
    pub outbox_id : String
    pub found : find_borrow change.id before.borrows ≡ some row
    pub actor_active : IsActiveActor change.actor before
    pub authorized : change.authorize row change.actor ≡ true
    pub from : status_eq row.status change.from ≡ true
    pub allowed : is_valid_transition change.from change.to ≡ true
    pub releases : ReleasesAll row before
    pub result : after ≡ after_change row audit_id outbox_id before

  pub simple_state_tx_rule :
      (c : Env) (s : Session) → On (λ _ t. SimpleDone s.db t.db) (simple_state_tx change now c s)
  unfolding simple_state_tx
  simple_state_tx_rule c s = On-after _ c (ensure_active_actor_rule change.actor c s) λ _ t p.
      On-after _ c (load_borrow_state_rule change.id c t) λ row t1 p1.
        On-after _ c (refuse_if_rule _ _ c t1) λ _ t2 p2.
          On-after _ c (refuse_if_rule _ _ c t2) λ _ t3 p3.
            On-after _ c (refuse_if_rule _ _ c t3) λ _ t4 p4.
              On-after _ c (release_step_rule row c t4) λ _ t5 p5.
                On-after _ c (update_borrow_status_rule _ _ _ now _ c t5) λ _ t6 p6.
                  On-after _ c (insert_audit_rule _ c t6) λ _ t7 p7.
                    On-weaken (tell_step_rule row c t7) λ _ t8 p8.
                      let start : t4.db ≡ s.db = cc in
                      record {
                        row = row;
                        audit_id = p7.0;
                        outbox_id = p8.0;
                        found = cc;
                        actor_active = p.1;
                        authorized = ground arith;
                        from = ground arith;
                        allowed = ground arith;
                        releases = subst (ReleasesAll row) start p5.0;
                        result = rw (p8.1, p7.1, p6.1, p5.1, start);
                      }

  -- Which reservations a change releases fits the statuses that hold reservations.
  abbrev pub ReleasesFit : Type 0
  ReleasesFit =
      (change.releases_reservations
        ≡ (holds_reservations change.from && not (holds_reservations change.to)))
      × ((holds_reservations change.from || not (holds_reservations change.to)) ≡ true)

  links_move :
      (row : BorrowRow) (before after : Db)
      → row.status ≡ change.from
      → ReleasesFit
      → after.borrow_covers ≡ (after_releasing row before).borrow_covers
      → LinksMove row change.to now before.borrow_covers after.borrow_covers
  links_move row before after e fit h = elim (Bool-cases change.releases_reservations) [
    | inl r ↦ inl (ground arith, ground arith, h ∙ (rw r))
    | inr r ↦ inr (ground arith, h ∙ (rw r))
  ]

  outbox_grows :
      (row : BorrowRow) (id : String) (db : Db)
      → OutboxGrows db.outbox (after_telling row id db).outbox
  outbox_grows row id db = elim (Bool-cases (str_eq change.notification_type "")) [
    | inl e ↦ inl (rw e)
    | inr e ↦ inr (told row id, rw e)
  ]

  pub SimpleDone-Moved :
      {before after : Db} (d : SimpleDone before after)
      → ReleasesFit
      → Moved d.row change.to before after
  SimpleDone-Moved {before} {after} d fit =
      let same : d.row.status ≡ change.from = eq_of_status_eq _ _ d.from in
      record {
        now = now;
        extra = change.extra_updates change.actor;
        entry_id = d.audit_id;
        entry =
            audit_of d.row.id change.action change.from change.to change.actor change.reason now;
        found = find_borrow-own change.id d.row before.borrows d.found;
        allowed = rw same d.allowed;
        borrows = rw (d.result, same);
        links = links_move d.row before after same fit (rw d.result);
        audited = rw d.result;
        entry_borrow = refl;
        entry_from = ap some (sym same);
        entry_to = refl;
        outbox = rw d.result (outbox_grows d.row d.outbox_id before);
      }
