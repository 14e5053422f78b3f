-- ===== src/Borrow/Consistency/Calls.antt =====
-- The transactions and the deliveries of the borrow service against the consistency of the tables.
use scc_backend.Base.{ℕ, refl, String, ◌&&◌, some, List, count_where-update_where, str_eq}
use scc_backend.Store.{Db, Notification}
use scc_backend.Effect.Ensures.{On-weaken}
use scc_backend.Borrow.Events.{has_key, mark_processed, is_pending}
use scc_backend.Borrow.Lifecycle.Simple.{simple_state_tx_rule, SimpleDone-Moved}
use scc_backend.Borrow.Lifecycle.Cancel.{cancel_tx_rule, CancelDone-Moved}
use scc_backend.Borrow.Lifecycle.Activate.{activate_tx_rule, ActivateDone-Moved}
use scc_backend.Borrow.Calls.{Steps}
use scc_backend.Borrow.Create.Done.{create_tx_rule}
use scc_backend.Borrow.Lifecycle.Return.{return_tx_rule}
use scc_backend.Borrow.Consistency.Returns.{ReturnDone-IsConsistent, mark_overdue_tx_rule}
use scc_backend.Borrow.Consistency.{IsConsistent}
use scc_backend.Borrow.Consistency.Moves.{Moved-IsConsistent}
use scc_backend.Borrow.Consistency.Steps.{Delivered-IsConsistent, Created-IsConsistent}

-- A delivery to one recipient.
add_notification_IsConsistent :
    (rows : Db → List Notification) (db : Db)
    → IsConsistent db
    → IsConsistent (record db { notifications = rows db })
add_notification_IsConsistent rows db = Delivered-IsConsistent (record {
  borrows = refl;
  borrow_covers = refl;
  borrow_audit_events = refl;
  covers = refl;
  users = refl;
  keys = λ key. refl;
})

mark_processed-IsConsistent :
    (id : String) (now : ℕ) (db : Db)
    → IsConsistent db
    → IsConsistent (record db { outbox = mark_processed id now db.outbox })
mark_processed-IsConsistent id now db = Delivered-IsConsistent (record {
  borrows = refl;
  borrow_covers = refl;
  borrow_audit_events = refl;
  covers = refl;
  users = refl;
  keys = λ key.
      count_where-update_where (λ o. str_eq o.id id && is_pending o) (has_key key)
        (λ o. record o { processed_at = some now }) (λ o. refl) db.outbox;
})

pub IsConsistent-steps : Steps IsConsistent
IsConsistent-steps = record {
  notifications_kept = add_notification_IsConsistent;
  deliveries_kept = mark_processed-IsConsistent;
  simple_kept = λ change fit now c s h.
      On-weaken (simple_state_tx_rule change now c s)
        λ _ t d. Moved-IsConsistent (SimpleDone-Moved change now d fit) h;
  cancel_kept = λ id actor r now c s h.
      On-weaken (cancel_tx_rule id actor r now c s)
        λ _ t d. Moved-IsConsistent (CancelDone-Moved id actor r now d) h;
  activate_kept = λ id actor r now c s h.
      On-weaken (activate_tx_rule actor r now id c s)
        λ _ t d. Moved-IsConsistent (ActivateDone-Moved actor r now d) h;
  return_kept = λ id actor r now c s h.
      On-weaken (return_tx_rule actor r now id c s)
        λ _ t d. ReturnDone-IsConsistent actor r now d h;
  overdue_kept = λ now c s h. mark_overdue_tx_rule now c s h;
  create_kept = λ p borrower note borrow_id now c s h.
      On-weaken (create_tx_rule p borrower note borrow_id now c s)
        λ _ t d. Created-IsConsistent d.created h;
}
