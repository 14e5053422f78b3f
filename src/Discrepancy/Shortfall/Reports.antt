-- ===== src/Discrepancy/Shortfall/Reports.antt =====
-- What RecordBorrowReturnCapacityShortfallTx writes: one report with its audit entry and the
-- notifications of the administrators, and only where the plan exceeds the stock that is left.
use scc_backend.Base.{
  ℕ, ◌≤◌, ◌<◌, ◌≡◌, refl, String, ◌∷◌, ◌==◌, ltb, leb, count_where, arith, some, none, inl, inr,
  ◌⊎◌, Bool-cases, trim_space, if◌then◌else◌, Grown,
}
use scc_backend.Store.{Db, DiscrepancyAudit}
use scc_backend.Effect.{Env, Session, pure, ◌>>◌}
use scc_backend.Effect.Ensures.{
  On, value, On-after, On-weaken, refuse_if_rule, new_uuid_rule, query_rule, insert_unless_rule,
  insert_or_ignore_rule, Inserted,
}
use scc_backend.Discrepancy.Shortfall.{
  reserved_planned, is_stock_at, shortfall_key, shortfall_row, shortfall_reason, key_count,
  insert_discrepancy_audit, notify_active_admins, report_shortfall,
  record_borrow_return_capacity_shortfall,
}
use scc_backend.Discrepancy.Shortfall.Told.{IsAbout, AdminsTold, notify_active_admins_rule}

-- Nothing but discrepancies, their audit trail and notifications has changed.
abbrev pub ReportsOnly : Db → Db → Type 0
ReportsOnly before after = after ≡ record before {
  discrepancies = after.discrepancies;
  discrepancy_audit_events = after.discrepancy_audit_events;
  notifications = after.notifications;
}

-- The entry of the audit trail for a report that the system makes.
abbrev pub creation_entry : String → String → ℕ → DiscrepancyAudit
creation_entry audit_id report_id now = record {
  id = audit_id;
  discrepancy_id = report_id;
  action = "CREATE";
  actor_id = none;
  actor_role = "system";
  note = shortfall_reason;
  created_at = now;
}

insert_discrepancy_audit_rule :
    (report_id : String) (now : ℕ) (c : Env) (s : Session)
    → On
        (λ _ t.
          (id : String) × (t.db ≡ record s.db {
            discrepancy_audit_events =
                creation_entry id report_id now ∷ s.db.discrepancy_audit_events;
          }))
        (insert_discrepancy_audit report_id "CREATE" none "system" shortfall_reason now c s)
unfolding insert_discrepancy_audit
insert_discrepancy_audit_rule report_id now c s =
    On-after _ c (new_uuid_rule c s)
      λ id t p. On-weaken (insert_unless_rule _ _ c t) λ _ t1 p1. (id, rw (p1.1, p) refl)

module _ (office borrow_id : String) (planned remaining now : ℕ) where
  -- The borrow had no report. It has one open report now, with the plan as expected and the stock as
  -- observed quantity, which the audit trail records and of which every active administrator is
  -- told; and no other row of these tables is gone or changed.
  pub record IsReported (before after : Db) : Type 0 where
    pub id : String
    pub audit_id : String
    pub first : key_count (shortfall_key borrow_id) before ≡ 0
    pub reported :
        after.discrepancies
        ≡ (record {
          id = id;
          office_id = office;
          kind = "CAPACITY_SHORTFALL";
          status = "OPEN";
          reason = shortfall_reason;
          expected_qty = some planned;
          observed_qty = some remaining;
          borrow_id = some borrow_id;
          dedup_key = some (shortfall_key borrow_id);
          created_at = now;
          updated_at = now;
        })
          ∷ before.discrepancies
    pub audited :
        after.discrepancy_audit_events
        ≡ creation_entry audit_id id now ∷ before.discrepancy_audit_events
    pub grown : Grown (IsAbout id "DISCREPANCY_REPORTED") before.notifications after.notifications
    pub told : AdminsTold id "reported" before.users after.notifications

  -- The borrow had its report already and nothing has changed, or it has been reported.
  abbrev pub HasReport : Db → Db → Type 0
  HasReport before after =
      ReportsOnly before after
      × (((0 < key_count (shortfall_key borrow_id) before) × (after ≡ before))
          ⊎ IsReported before after)

  abbrev with_report : String → Db → Db
  with_report id db = record db {
    discrepancies = shortfall_row id office borrow_id planned remaining now ∷ db.discrepancies;
  }

  after_insert_rule :
      (id : String) (before : Db) (n : ℕ) (c : Env) (s : Session)
      → Inserted
          (λ db. ltb 0 (key_count (shortfall_key borrow_id) db))
          before
          (with_report id)
          n
          s.db
      → On
          (λ _ t. HasReport before t.db)
          ((if n == 0
              then pure tt
              else insert_discrepancy_audit id "CREATE" none "system" shortfall_reason now
                >> notify_active_admins id "DISCREPANCY_REPORTED"
                    "ระบบพบกำลังสต็อกต่ำกว่าใบงานที่กำหนดไว้หลังการคืนยืม" "reported" now)
            c s)
  after_insert_rule id before n c s (inl (e, taken, same)) =
      simp e (value (rw same refl, inl (ground (arith, taken), same)))
  after_insert_rule id before n c s (inr (e, free, grown)) = simp e (
      On-after _ c (insert_discrepancy_audit_rule id now c s) λ _ t p.
        On-weaken (notify_active_admins_rule id _ _ "reported" now c t) λ _ t1 p1.
          let start = rw grown at p.1 in
          (
            rw (p1.0, start) refl,
            inr (record {
              id = id;
              audit_id = p.0;
              first = ground (arith, free);
              reported = rw (p1.0, start) refl;
              audited = rw (p1.0, start) refl;
              grown = rw start at p1.1;
              told = rw start at p1.2;
            }),
          ))

  report_shortfall_rule :
      (c : Env) (s : Session)
      → On
          (λ _ t. HasReport s.db t.db)
          (report_shortfall office borrow_id planned remaining now c s)
  unfolding report_shortfall
  report_shortfall_rule c s = On-after _ c (new_uuid_rule c s) λ id t p.
      On-after _ c (insert_or_ignore_rule _ _ _ c t)
        λ n t1 p1. rw p at (after_insert_rule id t.db n c t1 p1)

-- What recording has done: nothing where the plan fits the stock that is left, and otherwise a
-- report under the borrow's key.
abbrev pub Recorded : String → String → ℕ → Db → Db → Type 0
Recorded office borrow_id now before after =
    ReportsOnly before after
    × (((reserved_planned office before ≤ count_where (is_stock_at office) before.covers)
          × (after ≡ before))
        ⊎ ((count_where (is_stock_at office) before.covers < reserved_planned office before)
            × HasReport office borrow_id (reserved_planned office before)
                (count_where (is_stock_at office) before.covers) now before after))

pub record_borrow_return_capacity_shortfall_rule :
    (office borrow_id : String) (now : ℕ) (c : Env) (s : Session)
    → On
        (λ _ t. Recorded (trim_space office) (trim_space borrow_id) now s.db t.db)
        (record_borrow_return_capacity_shortfall office borrow_id now c s)
unfolding record_borrow_return_capacity_shortfall
record_borrow_return_capacity_shortfall_rule office borrow_id now c s =
    On-after _ c (refuse_if_rule _ _ c s) λ _ t p.
      On-after _ c (query_rule _ c t) λ remaining t1 p1.
        On-after _ c (query_rule _ c t1) λ planned t2 p2.
          let start : t2.db ≡ s.db = cc in
          let left : remaining ≡ count_where (is_stock_at (trim_space office)) s.db.covers =
            rw p.1 at p1.0 in
          let plan : planned ≡ reserved_planned (trim_space office) s.db = rw (p1.1, p.1) at p2.0 in
          elim (Bool-cases (leb planned remaining)) [
            | inl e ↦ simp e (value (rw start, inl (ground (arith, left, plan), start)))
            | inr e ↦ simp e (
                On-weaken (report_shortfall_rule _ _ planned remaining now c t2) λ _ t3 p3.
                  let q = rw (start, plan, left) at p3 in
                  (q.0, inr (ground (arith, left, plan), q)))
          ]
