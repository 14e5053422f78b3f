-- ===== src/WorkOrder/Effects.antt =====
-- What the statements of the work order service ensure when they succeed.
use scc_backend.Base.{
  ℕ, suc, if◌then◌else◌, ◌≤◌, ◌≡◌, refl, ◌⊎◌, inl, inr, String, Bool, true, false, Option, some,
  List, ◌∷◌, str_eq, count_where, take_where, select_where, update_where, delete_where, Bool-cases,
  arith,
}
use scc_backend.Domain.Cover.{CoverStatus}
use scc_backend.Domain.WorkOrder.{WorkOrderStatus}
use scc_backend.Store.{Db, User, WorkOrder, Installation}
use scc_backend.Effect.{Env, Session, Action, Error, ok, err, insert_or_ignore}
use scc_backend.Effect.Ensures.{
  On, value, error, On-after, On-weaken, refuse_if_rule, query_rule, execute_rule, update_rows_rule,
  or_fail_rule, ask_rule, pure_rule, transaction_rule,
}
use scc_backend.WorkOrder.Rows.{
  find_work_order, read_found, find_by_id_for_update, update_work_order, has_id, with_update,
  has_installation_id, is_pair, is_of_work_order, list_installations_for_update,
  find_installation_for_update, add_installation, with_installation, update_installation,
  is_draft_pair, remove_draft_installation, find_cover_by_code_for_update, is_cover_in,
  with_cover_status, set_cover_status, is_in_status, with_new_status, update_status_from,
}
use scc_backend.WorkOrder.Planning.{
  available, ensure_planned_qty_available, is_technician_of, validate_assignment_target,
}
use scc_backend.WorkOrder.Field.{
  EvidenceActor, evidence_mutation_allowed, authorized_work_order, in_transaction,
}

pub find_by_id_for_update_rule :
    (id : String) (c : Env) (s : Session)
    → On
        (λ w t. (t.db ≡ s.db) × (read_found (find_work_order id s.db.work_orders) ≡ some w))
        (find_by_id_for_update id c s)
unfolding find_by_id_for_update
find_by_id_for_update_rule id c s =
    On-after _ c (query_rule _ c s)
      λ found t p. On-weaken (or_fail_rule found _ c t) λ w t1 p1. (cc, cc)

pub authorized_work_order_rule :
    (actor : EvidenceActor) (id : String) (c : Env) (s : Session)
    → On
        (λ w t.
          (t.db ≡ s.db)
          × (read_found (find_work_order id s.db.work_orders) ≡ some w)
          × (evidence_mutation_allowed actor w ≡ true))
        (authorized_work_order actor id c s)
unfolding authorized_work_order
authorized_work_order_rule actor id c s = On-after _ c (find_by_id_for_update_rule id c s) λ w t p.
    On-after _ c (refuse_if_rule _ _ c t) λ _ t1 p1.
      On-weaken (pure_rule w c t1) λ x t2 p2. (cc, rw p2.0 p.1, rw p2.0 (ground (arith, p1.0)))

pub list_installations_for_update_rule :
    (id : String) (c : Env) (s : Session)
    → On
        (λ rows t. (rows ≡ select_where (is_of_work_order id) s.db.installations) × (t.db ≡ s.db))
        (list_installations_for_update id c s)
unfolding list_installations_for_update
list_installations_for_update_rule id c s = query_rule _ c s

pub find_installation_for_update_rule :
    (work_order_id cover_id : String) (c : Env) (s : Session)
    → On
        (λ found t.
          (found ≡ take_where (is_pair work_order_id cover_id) s.db.installations) × (t.db ≡ s.db))
        (find_installation_for_update work_order_id cover_id c s)
unfolding find_installation_for_update
find_installation_for_update_rule work_order_id cover_id c s = query_rule _ c s

pub update_installation_rule :
    (i : Installation) (c : Env) (s : Session)
    → On
        (λ _ t. t.db ≡ record s.db {
          installations =
              update_where (has_installation_id i.id) (with_installation i) s.db.installations;
        })
        (update_installation i c s)
unfolding update_installation
update_installation_rule i c s = execute_rule _ c s

abbrev pub after_cover : String → CoverStatus → CoverStatus → ℕ → Db → Db
after_cover id from to now db = record db {
  covers = update_where (is_cover_in id from) (with_cover_status to now) db.covers;
}

pub set_cover_status_rule :
    (id : String) (from to : CoverStatus) (now : ℕ) (c : Env) (s : Session)
    → On
        (λ _ t.
          (count_where (is_cover_in id from) s.db.covers ≡ 1)
          × (t.db ≡ after_cover id from to now s.db))
        (set_cover_status id from to now c s)
set_cover_status_rule id from to now c s =
    On-after _ c (update_rows_rule _ _ c s)
      λ n t p. On-weaken (refuse_if_rule _ _ c t) λ _ t1 p1. (ground arith, cc)

abbrev pub after_work_order : WorkOrder → Db → Db
after_work_order w db = record db {
  work_orders = update_where (has_id w.id) (with_update w) db.work_orders;
}

pub update_work_order_rule :
    (w : WorkOrder) (c : Env) (s : Session)
    → On (λ _ t. t.db ≡ after_work_order w s.db) (update_work_order w c s)
unfolding update_work_order
update_work_order_rule w c s = execute_rule _ c s

abbrev pub after_new_status : WorkOrder → List WorkOrderStatus → Db → Db
after_new_status w allowed_from db = record db {
  work_orders = update_where (is_in_status w.id allowed_from) (with_new_status w) db.work_orders;
}

pub update_status_from_rule :
    (w : WorkOrder) (allowed_from : List WorkOrderStatus) (c : Env) (s : Session)
    → On
        (λ _ t.
          (count_where (is_in_status w.id allowed_from) s.db.work_orders ≡ 1)
          × (t.db ≡ after_new_status w allowed_from s.db))
        (update_status_from w allowed_from c s)
unfolding update_status_from
update_status_from_rule w allowed_from c s =
    On-after _ c (update_rows_rule _ _ c s)
      λ n t p. On-weaken (refuse_if_rule _ _ c t) λ _ t1 p1. (ground arith, cc)

-- The row found is the new one, or was there: nothing is written over.
abbrev pub Added : Installation → Db → Db → Type 0
Added i before after =
    (after ≡ before)
    ⊎ ((count_where (has_installation_id i.id) before.installations ≡ 0)
        × (after ≡ record before { installations = i ∷ before.installations }))

-- What the INSERT has done, by the number of rows inserted.
abbrev Wrote : (Db → Bool) → Db → (Db → Db) → ℕ → Db → Type 0
Wrote is_taken before f n now =
    ((n ≡ 0) × (now ≡ before)) ⊎ ((n ≡ 1) × (is_taken before ≡ false) × (now ≡ f before))

insert_or_ignore_fresh_rule :
    (conflicts is_taken : Db → Bool) (f : Db → Db) (c : Env) (s : Session)
    → On (λ n t. Wrote is_taken s.db f n t.db) (insert_or_ignore conflicts is_taken f c s)
unfolding insert_or_ignore
insert_or_ignore_fresh_rule conflicts is_taken f c s = elim (Bool-cases (c.fault s.statements)) [
  | inl e ↦ rw e error
  | inr e ↦ rw e (by_tests (conflicts s.db) (is_taken s.db) refl)
]
  where
    t : Session
    t = record s { statements = suc s.statements }

    by_tests :
        (x y : Bool)
        → is_taken s.db ≡ y
        → On
            (λ n t. Wrote is_taken s.db f n t.db)
            (if x
              then (ok 0, t)
              else if y
              then (err Error.driver, t)
              else (ok 1, record t { db = f s.db }))
    by_tests true y h = value (inl (refl, refl))
    by_tests false true h = error
    by_tests false false h = value (inr (refl, h, refl))

pub add_installation_rule :
    (i : Installation) (c : Env) (s : Session)
    → On (λ _ t. Added i s.db t.db) (add_installation i c s)
unfolding add_installation
add_installation_rule i c s = On-after _ c (insert_or_ignore_fresh_rule _ _ _ c s) λ n t p. elim p [
  | inl (e, same) ↦ simp e (
      On-after _ c (find_installation_for_update_rule i.work_order_id i.cover_id c t)
        λ found t1 p1. On-weaken (refuse_if_rule _ _ c t1) λ _ t2 p2. inl cc)
  | inr (e, fresh, added) ↦ simp e (value (inr (ground (arith, fresh), added)))
]

pub remove_draft_installation_rule :
    (work_order_id cover_id : String) (c : Env) (s : Session)
    → On
        (λ _ t. t.db ≡ record s.db {
          installations = delete_where (is_draft_pair work_order_id cover_id) s.db.installations;
        })
        (remove_draft_installation work_order_id cover_id c s)
unfolding remove_draft_installation
remove_draft_installation_rule work_order_id cover_id c s = execute_rule _ c s

pub find_cover_by_code_for_update_rule :
    (code : String) (c : Env) (s : Session)
    → On (λ _ t. t.db ≡ s.db) (find_cover_by_code_for_update code c s)
unfolding find_cover_by_code_for_update
find_cover_by_code_for_update_rule code c s =
    On-after _ c (ask_rule (λ x. x.before) c s) λ before t p.
      On-after _ c (query_rule _ c t)
        λ found t1 p1. On-weaken (or_fail_rule found _ c t1) λ r t2 p2. cc

-- The quantity fits what is left of the stock.
pub ensure_planned_qty_available_rule :
    (office : String) (planned_qty : ℕ) (excluded : Option String) (c : Env) (s : Session)
    → On
        (λ _ t. (t.db ≡ s.db) × (planned_qty ≤ available office excluded s.db))
        (ensure_planned_qty_available office planned_qty excluded c s)
unfolding ensure_planned_qty_available
ensure_planned_qty_available_rule office planned_qty excluded c s =
    On-after _ c (query_rule _ c s) λ in_stock t p.
      On-after _ c (query_rule _ c t) λ reserved t1 p1.
        On-after _ c (query_rule _ c t1) λ borrowed t2 p2.
          On-weaken (refuse_if_rule _ _ c t2) λ _ t3 p3.
            let reserved_then = rw p.1 at p1.0 in
            let borrowed_then = rw (p1.1, p.1) at p2.0 in
            (cc, ground (arith, p3.0, p.0, reserved_then, borrowed_then))

pub validate_assignment_target_rule :
    (office user_id : String) (c : Env) (s : Session)
    → On
        (λ _ t.
          (t.db ≡ s.db)
          × ((u : User) × (take_where (λ r. str_eq r.id user_id) s.db.users ≡ some u)
              × (is_technician_of office u ≡ true)))
        (validate_assignment_target office user_id c s)
unfolding validate_assignment_target
validate_assignment_target_rule office user_id c s = On-after _ c (query_rule _ c s) λ found t p.
    On-after _ c (or_fail_rule found _ c t)
      λ u t1 p1. On-weaken (refuse_if_rule _ _ c t1) λ _ t2 p2. (cc, (u, cc, ground (arith, p2.0)))

pub in_transaction_rule :
    {A : Type 0} (Q : A → Db → Type 0) (m : Action A) (c : Env) (s : Session)
    → ((t : Session) → t.db ≡ s.db → On (λ a u. Q a u.db) (m c t))
    → On (λ a u. Q a u.db) (in_transaction m c s)
unfolding in_transaction
in_transaction_rule Q m c s h = On-after _ c (ask_rule (λ x. x.has_db) c s) λ b t p.
    On-after _ c (refuse_if_rule _ _ c t)
      λ _ t1 p1. let here : t1 ≡ s = cc in rw here (transaction_rule Q m c s h)
