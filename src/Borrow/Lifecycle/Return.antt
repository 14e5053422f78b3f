-- ===== src/Borrow/Lifecycle/Return.antt =====
-- What `Return` has done when its transaction commits: it took every cover back, or it found one
-- still installed and marked the borrow overdue.
use scc_backend.Base.{
  ℕ, ◌≡◌, refl, ap, ◌⊎◌, inl, inr, String, Bool, true, false, not, ◌&&◌, ◌||◌, Option, none, some,
  List, [], ◌∷◌, str_eq_refl, ltb, length, arith, Bool-cases, All, trim_space, if◌then◌else◌,
}
use scc_backend.Domain.Cover.{CoverStatus}
use scc_backend.Domain.Cover
use scc_backend.Domain.Borrow.{BorrowStatus, status_eq, eq_of_status_eq, is_valid_transition}
use scc_backend.Store.{Db, Cover, BorrowRow, OutboxRow}
use scc_backend.Effect.{Env, Session, Error, pure, ◌>>◌}
use scc_backend.Effect.Ensures.{On, value, On-after, On-weaken, refuse_if_rule, pure_rule}
use scc_backend.Discrepancy.Shortfall.Reports.{
  Recorded, record_borrow_return_capacity_shortfall_rule,
}
use scc_backend.Borrow.Actor.{Actor, can_support_or_lender_exec}
use scc_backend.Borrow.Rows.{Extra, find_borrow, find_cover}
use scc_backend.Borrow.Capacity.{open_installations}
use scc_backend.Borrow.Consistency.Moves.{Moved}
use scc_backend.Borrow.Effects.{
  IsActiveActor, ensure_active_actor_rule, load_borrow_state_rule, lock_planning_office_rule,
  update_borrow_status_rule, insert_audit_rule, enqueue_creator_notification_rule,
  ordered_cover_ids, reservation_cover_ids_rule, lock_cover_state_rule, has_open_installation_rule,
  after_status, after_audit, after_enqueue, creator_row,
}
use scc_backend.Borrow.Lifecycle.{
  return_tx, take_back, finish_return, check_returnable, mark_one_overdue, audit_of,
}
use scc_backend.Borrow.Lifecycle.Overdue.{OverdueDone, mark_one_overdue_rule}
use scc_backend.Borrow.Lifecycle.Covers.{after_moving, move_covers_rule, IsFreeAt, contains}

-- A cover of the list is installed, or has an open installation.
pub record IsStuck (db : Db) (ids : List String) : Type 0 where
  pub cover_id : String
  pub cover : Cover
  pub listed : contains cover_id ids ≡ true
  pub found : find_cover cover_id db.covers ≡ some cover
  pub stuck :
      (Cover.status_eq cover.status CoverStatus.installed
        || ltb 0 (open_installations cover_id db.installations))
      ≡ true

-- A borrow on loan has been marked overdue; one that was overdue stays as it is.
abbrev pub Escalated : BorrowRow → ℕ → Db → Db → Type 0
Escalated row now before after =
    ((row.status ≡ BorrowStatus.on_loan) × OverdueDone row now before after)
    ⊎ ((status_eq row.status BorrowStatus.on_loan ≡ false) × (after ≡ before))

-- What the loop over the covers has found, by the conflict that it returns.
abbrev pub Checked : BorrowRow → ℕ → List String → Option Error → Db → Db → Type 0
Checked row now ids none before after =
    (after ≡ before) × All (IsFreeAt row.lender_office_id row.borrower_office_id before) ids
Checked row now ids (some e) before after =
    (e ≡ Error.conflict) × IsStuck before ids × Escalated row now before after

first-IsStuck :
    (db : Db) (i : String) (ids : List String) (r : Cover)
    → find_cover i db.covers ≡ some r
    → (Cover.status_eq r.status CoverStatus.installed
        || ltb 0 (open_installations i db.installations))
      ≡ true
    → IsStuck db (i ∷ ids)
first-IsStuck db i ids r found stuck = record {
  cover_id = i;
  cover = r;
  listed = rw (str_eq_refl i);
  found = found;
  stuck = stuck;
}

module _ (row : BorrowRow) (now : ℕ) where
  escalate_rule :
      (c : Env) (s : Session)
      → On
          (λ r t. (r ≡ some Error.conflict) × Escalated row now s.db t.db)
          (((if status_eq row.status BorrowStatus.on_loan
                then mark_one_overdue row now
                else pure tt)
              >> pure (some Error.conflict))
            c s)
  escalate_rule c s = elim (Bool-cases (status_eq row.status BorrowStatus.on_loan)) [
    | inl e ↦ simp e (
        On-after _ c (mark_one_overdue_rule row now c s)
          λ _ t p. value (refl, inl (eq_of_status_eq _ _ e, p)))
    | inr e ↦ simp e (
        On-after _ c (pure_rule tt c s)
          λ _ t p. value (refl, inr (refl, ap (λ (x : Session). x.db) p.1)))
  ]

  one_more :
      (i : String) (ids : List String) (x : Option Error) (before after : Db)
      → IsFreeAt row.lender_office_id row.borrower_office_id before i
      → Checked row now ids x before after
      → Checked row now (i ∷ ids) x before after
  one_more i ids none before after free (same, rest) = (same, (free, rest))
  one_more i ids (some e) before after free (is_conflict, stuck, rest) = (
    is_conflict,
    record {
      cover_id = stuck.cover_id;
      cover = stuck.cover;
      listed = ground (arith, stuck.listed);
      found = stuck.found;
      stuck = stuck.stuck;
    },
    rest,
  )

  check_returnable_rule :
      (ids : List String) (c : Env) (s : Session)
      → On (λ r t. Checked row now ids r s.db t.db) (check_returnable row now ids c s)
  unfolding check_returnable
  check_returnable_rule [] c s = value (refl, tt)
  check_returnable_rule (i ∷ ids) c s = On-after _ c (lock_cover_state_rule i c s) λ r t p.
      On-after _ c (has_open_installation_rule i c t) λ b t1 p1.
        let start : t1.db ≡ s.db = cc in
        elim (Bool-cases (Cover.status_eq r.status CoverStatus.installed || b)) [
          | inl e ↦ simp e (
              On-weaken (escalate_rule c t1) λ x t2 p2. rw p2.0 (
                refl,
                first-IsStuck s.db i ids r p.1 (ground (arith, rw p.0 at p1.1, e)),
                rw start at p2.1,
              ))
          | inr e ↦ simp e (
              On-after _ c (refuse_if_rule _ _ c t1) λ _ t2 p2.
                On-weaken (check_returnable_rule ids c t2) λ x t3 p3.
                  let here : t2.db ≡ s.db = cc in
                  one_more i ids x s.db t3.db
                    (r, p.1, ground arith, ground (arith, rw p.0 at p1.1, e)) (rw here at p3))
        ]

module _ (actor : Actor) (reason : Option String) (now : ℕ) where
  abbrev pub told_returned : BorrowRow → String → OutboxRow
  told_returned row id =
      creator_row id row "BORROW_RETURNED" "ผู้ให้ยืมยืนยันรับคืนฉนวนแล้ว" "returned" now

  -- The tables once every cover is back, but for the reports of a shortfall.
  abbrev pub after_return : BorrowRow → List String → String → String → Db → Db
  after_return row ids audit_id outbox_id db = after_enqueue (told_returned row outbox_id) (
      after_audit audit_id
        (audit_of row.id "RETURN" row.status BorrowStatus.returned actor reason now)
        (after_status row.id row.status BorrowStatus.returned now (Extra.returned now actor.id) db))

  pub record TakenBack (row : BorrowRow) (ids : List String) (before after : Db) : Type 0 where
    pub audit_id : String
    pub outbox_id : String
    pub reported : Db
    pub recorded :
        Recorded
          (trim_space row.borrower_office_id)
          (trim_space row.id)
          now
          (after_moving row.borrower_office_id row.lender_office_id now ids before)
          reported
    pub result : after ≡ after_return row ids audit_id outbox_id reported

  take_back_rule :
      (row : BorrowRow) (ids : List String) (c : Env) (s : Session)
      → On (λ _ t. TakenBack row ids s.db t.db) (take_back actor reason now row ids c s)
  unfolding take_back
  take_back_rule row ids c s = On-after _ c (move_covers_rule _ _ now ids c s) λ _ t p.
      On-after _ c (record_borrow_return_capacity_shortfall_rule _ _ now c t) λ _ t1 p1.
        On-after _ c (update_borrow_status_rule _ _ _ now _ c t1) λ _ t2 p2.
          On-after _ c (insert_audit_rule _ c t2) λ _ t3 p3.
            On-weaken (enqueue_creator_notification_rule row _ _ _ now c t3) λ _ t4 p4. record {
              audit_id = p3.0;
              outbox_id = p4.0;
              reported = t1.db;
              recorded = rw p at p1;
              result = rw (p4.1, p3.1, p2.1);
            }

  -- How the transaction ends: with every cover back, or with the conflict of a stuck cover.
  abbrev pub ReturnEnds : BorrowRow → List String → Option Error → Db → Db → Type 0
  ReturnEnds row ids none before after =
      All (IsFreeAt row.lender_office_id row.borrower_office_id before) ids
      × TakenBack row ids before after
  ReturnEnds row ids (some e) before after =
      (e ≡ Error.conflict) × IsStuck before ids × Escalated row now before after

  module _ (id : String) (collate : String → String → Bool) where
    -- What the transaction has done, from `before` to `after`, when it commits.
    pub record ReturnDone (conflict : Option Error) (before after : Db) : Type 0 where
      pub row : BorrowRow
      pub ids : List String
      pub found : find_borrow id before.borrows ≡ some row
      pub actor_active : IsActiveActor actor before
      pub authorized : can_support_or_lender_exec row actor ≡ true
      pub from : (row.status ≡ BorrowStatus.on_loan) ⊎ (row.status ≡ BorrowStatus.overdue)
      pub linked : ids ≡ ordered_cover_ids collate row.id false before
      pub all_linked : length ids ≡ row.requested_qty
      pub ends : ReturnEnds row ids conflict before after

  either :
      (status : BorrowStatus)
      → (not (status_eq status BorrowStatus.on_loan) && not (status_eq status BorrowStatus.overdue))
        ≡ false
      → (status ≡ BorrowStatus.on_loan) ⊎ (status ≡ BorrowStatus.overdue)
  either status h = elim (Bool-cases (status_eq status BorrowStatus.on_loan)) [
    | inl e ↦ inl (eq_of_status_eq _ _ e)
    | inr e ↦ inr (eq_of_status_eq _ _ (ground arith))
  ]

  finish_rule :
      (row : BorrowRow) (ids : List String) (x : Option Error) (before : Db) (c : Env) (s : Session)
      → Checked row now ids x before s.db
      → On (λ r t. ReturnEnds row ids r before t.db) (finish_return actor reason now row ids x c s)
  unfolding finish_return
  finish_rule row ids none before c s (same, free) =
      On-after _ c (take_back_rule row ids c s) λ _ t p. value (free, rw same at p)
  finish_rule row ids (some e) before c s h = value h

  pub return_tx_rule :
      (id : String) (c : Env) (s : Session)
      → On (λ r t. ReturnDone id c.before r s.db t.db) (return_tx id actor reason now c s)
  unfolding return_tx
  return_tx_rule id c s = On-after _ c (ensure_active_actor_rule actor c s) λ _ t p.
      On-after _ c (load_borrow_state_rule id c t) λ row t1 p1.
        On-after _ c (refuse_if_rule _ _ c t1) λ _ t2 p2.
          On-after _ c (refuse_if_rule _ _ c t2) λ _ t3 p3.
            On-after _ c (lock_planning_office_rule _ c t3) λ _ t4 p4.
              On-after _ c (reservation_cover_ids_rule row.id false c t4) λ ids t5 p5.
                On-after _ c (refuse_if_rule _ _ c t5) λ _ t6 p6.
                  On-after _ c (check_returnable_rule row now ids c t6) λ x t7 p7.
                    let start : t4.db ≡ s.db = cc in
                    let here : t6.db ≡ s.db = cc in
                    On-weaken (finish_rule row ids x s.db c t7 (rw here at p7)) λ r t8 p8. record {
                      row = row;
                      ids = ids;
                      found = cc;
                      actor_active = p.1;
                      authorized = ground arith;
                      from = either row.status p3.0;
                      linked = rw start at p5.0;
                      all_linked = ground arith;
                      ends = p8;
                    }

  pub TakenBack-Moved :
      (row : BorrowRow) (ids : List String) {before after : Db}
      → TakenBack row ids before after
      → find_borrow row.id before.borrows ≡ some row
      → (row.status ≡ BorrowStatus.on_loan) ⊎ (row.status ≡ BorrowStatus.overdue)
      → Moved row BorrowStatus.returned before after
  unfolding is_valid_transition
  TakenBack-Moved row ids {before} {after} d found from = record {
    now = now;
    extra = Extra.returned now actor.id;
    entry_id = d.audit_id;
    entry = audit_of row.id "RETURN" row.status BorrowStatus.returned actor reason now;
    found = found;
    allowed = ground (arith, from);
    borrows = rw (d.result, d.recorded.0);
    links = inr (ground (arith, from), rw (d.result, d.recorded.0));
    audited = rw (d.result, d.recorded.0);
    entry_borrow = refl;
    entry_from = refl;
    entry_to = refl;
    outbox = inr (told_returned row d.outbox_id, rw (d.result, d.recorded.0));
  }
