-- ===== src/Borrow/Create/Reserve.antt =====
-- What the statements of `Create` ensure when they succeed: the choice of covers within the
-- lender's capacity, the reservations, and the messages to the lender's executives.
use scc_backend.Base.{
  ℕ, ◌≤◌, ◌≡◌, refl, ◌∙◌, String, true, some, List, [], ◌∷◌, inl, inr, str_eq, ◌==◌, length,
  count_where, arith, Bool-cases, All,
}
use scc_backend.Store.{Db, Cover, BorrowRow, BorrowCover, OutboxRow}
use scc_backend.Effect.{Error, Env, Session, Result, map_result}
use scc_backend.Effect.Ensures.{
  On, value, error, On-after, On-weaken, refuse_if_rule, query_rule, or_fail_rule,
  insert_unless_rule, new_uuid_rule, ask_rule,
}
use scc_backend.Discrepancy.Shortfall.{reserved_planned}
use scc_backend.Borrow.Rows.{find_cover}
use scc_backend.Borrow.Capacity.{
  capacity_formula, capacity_snapshot, select_eligible_cover_ids, ensure_cover_eligible,
  is_owned_stock, is_reserved_at, is_eligible, open_installations, active_reservations,
}
use scc_backend.Borrow.Events.{
  enqueue_all, outbox_row, outbox_key, enqueue_lender_exec_notifications,
}
use scc_backend.Borrow.Effects.{enqueue_notification_rule}
use scc_backend.Borrow.Lifecycle.{is_at}
use scc_backend.Borrow.Create.{
  choose_covers, settle_count, ensure_all_eligible, reserve_all, insert_borrow, new_link,
}
use scc_backend.Borrow.Consistency.Steps.{Reserved, done, reserve, Queued, none_queued, queue}

-- How many covers the office can lend.
abbrev pub capacity_of : String → Db → ℕ
capacity_of office db =
    capacity_formula (count_where (is_owned_stock office) db.covers) (reserved_planned office db)
      (count_where (is_reserved_at office db.borrows) db.borrow_covers)
      (count_where (is_eligible office db) db.covers)

-- The cover is the lender's own stock, not installed, and in no other reservation.
abbrev pub IsLendable : String → Db → String → Type 0
IsLendable office db i =
    (r : Cover) × (find_cover i db.covers ≡ some r)
    × (is_at office office r ≡ true)
    × (open_installations i db.installations ≡ 0)
    × (active_reservations i db.borrow_covers ≡ 0)

capacity_snapshot_rule :
    (office : String) (c : Env) (s : Session)
    → On
        (λ x t. (x.borrowable_capacity ≡ capacity_of office s.db) × (t.db ≡ s.db))
        (capacity_snapshot office c s)
unfolding capacity_snapshot
capacity_snapshot_rule office c s = On-after _ c (query_rule _ c s) λ owned t p.
    On-after _ c (query_rule _ c t) λ planned t1 p1.
      On-after _ c (query_rule _ c t1) λ borrowed t2 p2.
        On-after _ c (query_rule _ c t2)
          λ eligible t3 p3. value (rw (p.0, p1.0, p2.0, p3.0, p2.1, p1.1, p.1) refl, cc)

ensure_cover_eligible_rule :
    (i office : String) (c : Env) (s : Session)
    → On (λ _ t. (t.db ≡ s.db) × IsLendable office s.db i) (ensure_cover_eligible i office c s)
unfolding ensure_cover_eligible
ensure_cover_eligible_rule i office c s = On-after _ c (query_rule _ c s) λ found t p.
    On-after _ c (or_fail_rule found _ c t) λ row t1 p1.
      On-after _ c (refuse_if_rule _ _ c t1) λ _ t2 p2.
        On-after _ c (query_rule _ c t2) λ open_count t3 p3.
          On-after _ c (refuse_if_rule _ _ c t3) λ _ t4 p4.
            On-after _ c (query_rule _ c t4) λ reserved t5 p5.
              On-weaken (refuse_if_rule _ _ c t5) λ _ t6 p6.
                let at_open : t2.db ≡ s.db = cc in
                let at_reserved : t4.db ≡ s.db = cc in
                let opens = rw at_open at p3.0 in
                let taken = rw at_reserved at p5.0 in
                (cc, (row, cc, ground arith, ground arith, ground arith))

ensure_all_eligible_rule :
    (office : String) (ids : List String) (c : Env) (s : Session)
    → On
        (λ _ t. (t.db ≡ s.db) × All (IsLendable office s.db) ids)
        (ensure_all_eligible office ids c s)
unfolding ensure_all_eligible
ensure_all_eligible_rule office [] c s = value (refl, tt)
ensure_all_eligible_rule office (i ∷ ids) c s =
    On-after _ c (ensure_cover_eligible_rule i office c s) λ _ t p.
      On-weaken (ensure_all_eligible_rule office ids c t)
        λ _ t1 p1. (p1.0 ∙ p.0, (p.1, rw p.0 at p1.1))

settle_count_rule :
    (office : String) (quantity : ℕ) (ids : List String) (c : Env) (s : Session)
    → On (λ _ t. (length ids ≡ quantity) × (t.db ≡ s.db)) (settle_count office quantity ids c s)
unfolding settle_count
settle_count_rule office quantity ids c s = elim (Bool-cases (length ids == quantity)) [
  | inl e ↦ rw e (value (ground arith, refl))
  | inr e ↦ rw e (
      On-after _ c (capacity_snapshot_rule office c s)
        λ latest t p. On-weaken (refuse_if_rule true _ c t) λ _ t1 p1. cc)
]

pub choose_covers_rule :
    (office : String) (quantity : ℕ) (c : Env) (s : Session)
    → On
        (λ ids t.
          (t.db ≡ s.db)
          × (length ids ≡ quantity)
          × (quantity ≤ capacity_of office s.db)
          × All (IsLendable office s.db) ids)
        (choose_covers office quantity c s)
unfolding choose_covers select_eligible_cover_ids
choose_covers_rule office quantity c s =
    On-after _ c (capacity_snapshot_rule office c s) λ snapshot t p.
      On-after _ c (refuse_if_rule _ _ c t) λ _ t1 p1.
        On-after _ c
          (On-after {Q = λ _ u. u.db ≡ t1.db} _ c (ask_rule (λ x. x.before) c t1)
            λ before u q. On-weaken (query_rule _ c u) λ _ v r. cc)
          λ ids t2 p2. On-after _ c (settle_count_rule office quantity ids c t2) λ _ t3 p3.
            On-after _ c (ensure_all_eligible_rule office ids c t3) λ _ t4 p4.
              let start : t3.db ≡ s.db = cc in value (cc, p3.0, ground arith, rw start at p4.1)

pub insert_borrow_rule :
    (b : BorrowRow) (c : Env) (s : Session)
    → On
        (λ _ t.
          (count_where (λ r. str_eq r.id b.id) s.db.borrows ≡ 0)
          × (t.db ≡ record s.db { borrows = b ∷ s.db.borrows }))
        (insert_borrow b c s)
unfolding insert_borrow
insert_borrow_rule b c s = On-weaken (insert_unless_rule _ _ c s) λ _ t p. (ground arith, p.1)

map_error_rule :
    {A : Type 0} {Q : A → Session → Type 0} (f : Error → Error) {r : Result A × Session}
    → On Q r
    → On Q (map_result f r)
map_error_rule f (value q) = value q
map_error_rule f error = error

pub reserve_all_rule :
    (borrow_id : String) (now : ℕ) (ids : List String) (c : Env) (s : Session)
    → On
        (λ _ t.
          (after : List BorrowCover) × Reserved borrow_id now ids s.db.borrow_covers after
          × (t.db ≡ record s.db { borrow_covers = after }))
        (reserve_all borrow_id now ids c s)
unfolding reserve_all
reserve_all_rule borrow_id now [] c s = value (s.db.borrow_covers, done, refl)
reserve_all_rule borrow_id now (i ∷ ids) c s = On-after _ c (new_uuid_rule c s) λ id t p.
    On-after _ c (map_error_rule _ (insert_unless_rule _ _ c t)) λ _ t1 p1.
      On-weaken (reserve_all_rule borrow_id now ids c t1) λ _ t2 p2.
        let start : t1.db
            ≡ record s.db { borrow_covers = new_link borrow_id i now id ∷ s.db.borrow_covers } =
          rw p at p1.1 in
        (p2.0, reserve i id (rw p at p1.0) (rw start at p2.1), rw start at p2.2)

enqueue_all_rule :
    (borrow_id kind message event : String) (now : ℕ) (recipients : List String) (c : Env)
    (s : Session)
    → On
        (λ _ t.
          (after : List OutboxRow) × Queued s.db.outbox after
          × (t.db ≡ record s.db { outbox = after }))
        (enqueue_all borrow_id kind message event now recipients c s)
unfolding enqueue_all
enqueue_all_rule borrow_id kind message event now [] c s = value (s.db.outbox, none_queued, refl)
enqueue_all_rule borrow_id kind message event now (u ∷ us) c s =
    On-after _ c
      (enqueue_notification_rule borrow_id u kind message (outbox_key borrow_id event u) now c s)
      λ _ t p. On-weaken (enqueue_all_rule borrow_id kind message event now us c t) λ _ t1 p1. (
        p1.0,
        queue (outbox_row p.0 borrow_id u kind message (outbox_key borrow_id event u) now)
            (rw p.1 at p1.1),
        rw p.1 at p1.2,
      )

pub enqueue_lender_exec_notifications_rule :
    (borrow_id office kind message event : String) (now : ℕ) (c : Env) (s : Session)
    → On
        (λ _ t.
          (after : List OutboxRow) × Queued s.db.outbox after
          × (t.db ≡ record s.db { outbox = after }))
        (enqueue_lender_exec_notifications borrow_id office kind message event now c s)
unfolding enqueue_lender_exec_notifications
enqueue_lender_exec_notifications_rule borrow_id office kind message event now c s =
    On-after _ c (ask_rule (λ x. x.before) c s) λ before t p.
      On-after _ c (query_rule _ c t) λ recipients t1 p1.
        On-weaken (enqueue_all_rule borrow_id kind message event now recipients c t1)
          λ _ t2 p2. let start : t1.db ≡ s.db = cc in (p2.0, rw start at p2.1, rw start at p2.2)
