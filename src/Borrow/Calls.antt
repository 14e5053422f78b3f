-- ===== src/Borrow/Calls.antt =====
-- The calls of the borrow service, HTTP requests and the maintenance of cron.go, against a predicate
-- of the tables that each transaction and each delivery keeps.
use scc_backend.Base.{
  trim_space, ℕ, refl, String, Bool, true, false, Option, none, some, List, [], ◌∷◌, if◌then◌else◌,
}
use scc_backend.Store.{Db, OutboxRow, Notification}
use scc_backend.Effect.{Action, Env, Session, Error}
use scc_backend.Effect.Ensures.{On}
use scc_backend.Effect.Keeps.{
  Keeps, bind-Keeps, pure-Keeps, time_now-Keeps, new_uuid-Keeps, query-Keeps, execute-Keeps,
  insert_unless-Keeps, ignoring-Keeps, transaction-Keeps, or_fail-Keeps,
}
use scc_backend.Borrow.Actor.{
  Actor, validate_actor_claims, normalize_reason, normalize_support_reason, normalize_optional_text,
}
use scc_backend.Borrow.Events.{
  mark_processed, create_notification, deliver_all, dispatch_pending_notifications,
  dispatch_notifications_without_affecting_state, retry_pending_notifications,
}
use scc_backend.Borrow.Detail.{CanonicalRow, list_cover_summaries, with_covers, find_by_id}
use scc_backend.Borrow.Create.{CreateParams, create_tx, create}
use scc_backend.Borrow.Lifecycle.{
  SimpleStateChange, simple_state_tx, change_simple_state, approve, reject, approval, rejection,
  cancel_tx, cancel, activate_tx, activate, return_tx, return_borrow, returned_outcome,
  mark_overdue_tx, mark_overdue,
}
use scc_backend.Borrow.Lifecycle.Simple.{ReleasesFit}
use scc_backend.Borrow.Cron.{run_once}

pub data Call : Type 0 where
  create_call : CreateParams → Call
  approve_call : String → Actor → Call
  reject_call cancel_call activate_call return_call : String → Actor → String → Call
  maintenance : ℕ → Call

-- The session that a call leaves, whatever it returns.
abbrev pub serve : Call → Env → Session → Session
serve (create_call p) c s = (create p c s).1
serve (approve_call id actor) c s = (approve id actor c s).1
serve (reject_call id actor reason) c s = (reject id actor reason c s).1
serve (cancel_call id actor reason) c s = (cancel id actor reason c s).1
serve (activate_call id actor reason) c s = (activate id actor reason c s).1
serve (return_call id actor reason) c s = (return_borrow id actor reason c s).1
serve (maintenance now) c s = (run_once now c s).1

abbrev pub run : List Call → Env → Session → Session
run [] c s = s
run (call ∷ calls) c s = run calls c (serve call c s)

-- What an action ensures at the session that it starts from.
abbrev pub Preserves : (Db → Type 0) → {A : Type 0} → Action A → Type 0
Preserves P m = (c : Env) (s : Session) → P s.db → On (λ _ t. P t.db) (m c s)

-- The transactions of the borrow service, and its deliveries, keep the predicate.
pub record Steps (P : Db → Type 0) : Type 0 where
  pub notifications_kept :
      (rows : Db → List Notification) (db : Db) → P db → P (record db { notifications = rows db })
  pub deliveries_kept :
      (id : String) (now : ℕ) (db : Db)
      → P db
      → P (record db { outbox = mark_processed id now db.outbox })
  pub simple_kept :
      (change : SimpleStateChange)
      → ReleasesFit change 0
      → (now : ℕ) → Preserves P (simple_state_tx change now)
  pub cancel_kept :
      (id : String) (actor : Actor) (reason : Option String) (now : ℕ)
      → Preserves P (cancel_tx id actor reason now)
  pub activate_kept :
      (id : String) (actor : Actor) (reason : Option String) (now : ℕ)
      → Preserves P (activate_tx id actor reason now)
  pub return_kept :
      (id : String) (actor : Actor) (reason : Option String) (now : ℕ)
      → Preserves P (return_tx id actor reason now)
  pub overdue_kept : (now : ℕ) → Preserves P (mark_overdue_tx now)
  pub create_kept :
      (p : CreateParams) (borrower_office_id : String) (note : Option String) (borrow_id : String)
      (now : ℕ)
      → Preserves P (create_tx p borrower_office_id note borrow_id now)

module _ (P : Db → Type 0) (k : Steps P) where
  deliver_all-Keeps : (rows : List OutboxRow) → Keeps P (deliver_all rows)
  unfolding deliver_all create_notification
  deliver_all-Keeps [] = pure-Keeps P tt
  deliver_all-Keeps (row ∷ rows) = bind-Keeps P _ _ (new_uuid-Keeps P) λ id.
      bind-Keeps P _ _ (insert_unless-Keeps P _ _ (k.notifications_kept _)) λ _.
        bind-Keeps P _ _ (time_now-Keeps P) λ now.
          bind-Keeps P _ _ (execute-Keeps P _ (k.deliveries_kept row.id now))
            λ _. deliver_all-Keeps rows

  cond-Keeps :
      {A : Type 0} (b : Bool) (m n : Action A)
      → Keeps P m
      → Keeps P n
      → Keeps P (if b then m else n)
  cond-Keeps true m n h k = h
  cond-Keeps false m n h k = k

  dispatch_pending_notifications-Keeps : (id : String) → Keeps P (dispatch_pending_notifications id)
  unfolding dispatch_pending_notifications
  dispatch_pending_notifications-Keeps id =
      bind-Keeps P _ _ (λ c s p. p)
        λ has_repo.
          bind-Keeps P _ _ (λ c s p. p)
            λ before.
              cond-Keeps has_repo _ _ (bind-Keeps P _ _ (query-Keeps P _) deliver_all-Keeps)
                (pure-Keeps P tt)

  dispatch-Keeps : (id : String) → Keeps P (dispatch_notifications_without_affecting_state id)
  unfolding dispatch_notifications_without_affecting_state
  dispatch-Keeps id = ignoring-Keeps P _ (dispatch_pending_notifications-Keeps id)

  with_covers-Keeps : (id : String) (x : Option CanonicalRow) → Keeps P (with_covers id x)
  unfolding with_covers list_cover_summaries
  with_covers-Keeps id none = λ c s p. p
  with_covers-Keeps id (some x) =
      bind-Keeps P _ _ (bind-Keeps P _ _ (λ c s p. p) λ before. query-Keeps P _) λ covers c s p. p

  find_by_id-Keeps : (id : String) → Keeps P (find_by_id id)
  unfolding find_by_id
  find_by_id-Keeps id = bind-Keeps P _ _ (query-Keeps P _) (with_covers-Keeps id)

  validate_actor_claims-Keeps : (actor : Actor) → Keeps P (validate_actor_claims actor)
  unfolding validate_actor_claims
  validate_actor_claims-Keeps actor = bind-Keeps P _ _ (λ c s p. p) λ _. λ c s p. p

  normalize_reason-Keeps :
      (reason : String) (required : Bool) → Keeps P (normalize_reason reason required)
  unfolding normalize_reason
  normalize_reason-Keeps reason required =
      bind-Keeps P _ _ (λ c s p. p) λ _. bind-Keeps P _ _ (λ c s p. p) λ _. λ c s p. p

  change_simple_state-Keeps :
      (change : SimpleStateChange) → ReleasesFit change 0 → Keeps P (change_simple_state change)
  unfolding change_simple_state
  change_simple_state-Keeps change fit =
      bind-Keeps P _ _ (validate_actor_claims-Keeps change.actor) λ _.
        bind-Keeps P _ _ (time_now-Keeps P) λ now.
          bind-Keeps P _ _
            (transaction-Keeps P _
              (k.simple_kept (record change { id = trim_space change.id }) fit now))
            λ _. bind-Keeps P _ _ (dispatch-Keeps _) λ _. find_by_id-Keeps _

  approval_fit : (id : String) (actor : Actor) → ReleasesFit (approval id actor) 0
  approval_fit id actor = (refl, refl)

  rejection_fit :
      (id : String) (actor : Actor) (reason : Option String)
      → ReleasesFit (rejection id actor reason) 0
  rejection_fit id actor reason = (refl, refl)

  -- `Approve` keeps the predicate, whatever it returns.
  approve-Keeps :
      (id : String) (actor : Actor) (c : Env) (s : Session) → P s.db → P (approve id actor c s).1.db
  unfolding approve
  approve-Keeps id actor = change_simple_state-Keeps (approval id actor) (approval_fit id actor)

  -- `Reject` keeps the predicate, whatever it returns.
  reject-Keeps :
      (id : String) (actor : Actor) (reason : String) (c : Env) (s : Session)
      → P s.db
      → P (reject id actor reason c s).1.db
  unfolding reject
  reject-Keeps id actor reason =
      bind-Keeps P _ _ (normalize_reason-Keeps reason true)
        λ r. change_simple_state-Keeps (rejection id actor r) (rejection_fit id actor r)

  -- `Cancel` keeps the predicate, whatever it returns.
  cancel-Keeps :
      (id : String) (actor : Actor) (reason : String) (c : Env) (s : Session)
      → P s.db
      → P (cancel id actor reason c s).1.db
  unfolding cancel
  cancel-Keeps id actor reason = bind-Keeps P _ _ (normalize_reason-Keeps reason false) λ r.
      bind-Keeps P _ _ (validate_actor_claims-Keeps actor) λ _.
        bind-Keeps P _ _ (λ c s p. p)
          λ _. bind-Keeps P _ _ (time_now-Keeps P) λ now.
            bind-Keeps P _ _ (transaction-Keeps P _ (k.cancel_kept _ actor r now))
              λ _. find_by_id-Keeps _

  normalize_support_reason-Keeps :
      (actor : Actor) (reason : String) → Keeps P (normalize_support_reason actor reason)
  unfolding normalize_support_reason
  normalize_support_reason-Keeps actor reason = normalize_reason-Keeps reason _

  -- `Activate` keeps the predicate, whatever it returns.
  activate-Keeps :
      (id : String) (actor : Actor) (reason : String) (c : Env) (s : Session)
      → P s.db
      → P (activate id actor reason c s).1.db
  unfolding activate
  activate-Keeps id actor reason = bind-Keeps P _ _ (validate_actor_claims-Keeps actor) λ _.
      bind-Keeps P _ _ (normalize_support_reason-Keeps actor reason) λ r.
        bind-Keeps P _ _ (time_now-Keeps P) λ now.
          bind-Keeps P _ _ (transaction-Keeps P _ (k.activate_kept _ actor r now))
            λ _. bind-Keeps P _ _ (dispatch-Keeps _) λ _. find_by_id-Keeps _

  returned_outcome-Keeps : (id : String) (x : Option Error) → Keeps P (returned_outcome id x)
  unfolding returned_outcome
  returned_outcome-Keeps id none = find_by_id-Keeps id
  returned_outcome-Keeps id (some e) = λ c s p. p

  -- `Return` keeps the predicate, whatever it returns.
  return_borrow-Keeps :
      (id : String) (actor : Actor) (reason : String) (c : Env) (s : Session)
      → P s.db
      → P (return_borrow id actor reason c s).1.db
  unfolding return_borrow
  return_borrow-Keeps id actor reason = bind-Keeps P _ _ (validate_actor_claims-Keeps actor) λ _.
      bind-Keeps P _ _ (normalize_support_reason-Keeps actor reason) λ r.
        bind-Keeps P _ _ (time_now-Keeps P) λ now.
          bind-Keeps P _ _ (transaction-Keeps P _ (k.return_kept _ actor r now))
            λ x. bind-Keeps P _ _ (dispatch-Keeps _) λ _. returned_outcome-Keeps _ x

  -- `MarkOverdue` keeps the predicate, whatever it returns.
  mark_overdue-Keeps : (now : ℕ) (c : Env) (s : Session) → P s.db → P (mark_overdue now c s).1.db
  unfolding mark_overdue
  mark_overdue-Keeps now =
      bind-Keeps P _ _ (λ c s p. p)
        λ has_db.
          bind-Keeps P _ _ (λ c s p. p)
            λ _. bind-Keeps P _ _ (transaction-Keeps P _ (k.overdue_kept now)) λ _. dispatch-Keeps _

  -- `RetryPendingNotifications` keeps the predicate, whatever it returns.
  retry-Keeps : (c : Env) (s : Session) → P s.db → P (retry_pending_notifications c s).1.db
  unfolding retry_pending_notifications
  retry-Keeps = dispatch_pending_notifications-Keeps ""

  normalize_optional_text-Keeps :
      (text : Option String) (max_length : ℕ) → Keeps P (normalize_optional_text text max_length)
  unfolding normalize_optional_text
  normalize_optional_text-Keeps none max_length = λ c s h. h
  normalize_optional_text-Keeps (some text) max_length = bind-Keeps P _ _ (λ c s h. h) λ _ c s h. h

  -- `Create` keeps the predicate, whatever it returns.
  create-Keeps : (p : CreateParams) (c : Env) (s : Session) → P s.db → P (create p c s).1.db
  unfolding create
  create-Keeps p =
      bind-Keeps P _ _ (λ c s h. h)
        λ _.
          bind-Keeps P _ _ (λ c s h. h)
            λ _. bind-Keeps P _ _ (validate_actor_claims-Keeps p.actor) λ _.
              bind-Keeps P _ _ (λ c s h. h)
                λ _. bind-Keeps P _ _ (or_fail-Keeps P _ _) λ borrower.
                  bind-Keeps P _ _ (λ c s h. h)
                    λ _.
                      bind-Keeps P _ _ (λ c s h. h)
                        λ _.
                          bind-Keeps P _ _ (λ c s h. h)
                            λ _. bind-Keeps P _ _ (time_now-Keeps P) λ now.
                              bind-Keeps P _ _ (λ c s h. h)
                                λ _.
                                  bind-Keeps P _ _ (normalize_optional_text-Keeps p.note 500)
                                    λ note. bind-Keeps P _ _ (new_uuid-Keeps P) λ borrow_id.
                                      bind-Keeps P _ _
                                        (transaction-Keeps P _
                                          (k.create_kept p borrower note borrow_id now))
                                        λ _.
                                          bind-Keeps P _ _ (dispatch-Keeps borrow_id)
                                            λ _. find_by_id-Keeps borrow_id

  run_once-Keeps : (now : ℕ) → Keeps P (run_once now)
  unfolding run_once
  run_once-Keeps now =
      bind-Keeps P _ _ (ignoring-Keeps P _ (mark_overdue-Keeps now))
        λ _. ignoring-Keeps P _ retry-Keeps

  pub serve-Keeps : (call : Call) (c : Env) (s : Session) → P s.db → P (serve call c s).db
  serve-Keeps (create_call p) = create-Keeps p
  serve-Keeps (approve_call id actor) = approve-Keeps id actor
  serve-Keeps (reject_call id actor reason) = reject-Keeps id actor reason
  serve-Keeps (cancel_call id actor reason) = cancel-Keeps id actor reason
  serve-Keeps (activate_call id actor reason) = activate-Keeps id actor reason
  serve-Keeps (return_call id actor reason) = return_borrow-Keeps id actor reason
  serve-Keeps (maintenance now) = run_once-Keeps now

  pub run-Keeps : (calls : List Call) (c : Env) (s : Session) → P s.db → P (run calls c s).db
  run-Keeps [] c s h = h
  run-Keeps (call ∷ calls) c s h = run-Keeps calls c (serve call c s) (serve-Keeps call c s h)
