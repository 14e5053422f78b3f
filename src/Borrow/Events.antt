-- ===== src/Borrow/Events.antt =====
-- events.go: the audit trail, the notification outbox, and its delivery.
use scc_backend.Base.{
  ℕ, String, Bool, false, not, ◌&&◌, ◌||◌, Option, none, some, List, [], ◌∷◌, map, str_eq, ◌==◌,
  ltb, is_some, count_where, take, select_where, update_where, order_by, if◌then◌else◌, cat_all,
}
use scc_backend.Domain.Role.{Role, role_eq}
use scc_backend.Domain.Borrow.{BorrowStatus}
use scc_backend.Store.{BorrowRow, BorrowAudit, OutboxRow, Notification}
use scc_backend.Effect.{
  Error, Action, ◌>>=◌, ◌>>◌, pure, refuse_if, query, execute, insert_unless, new_uuid, time_now,
  ask, ignoring,
}
use scc_backend.Borrow.Actor.{Actor}

-- `string(actor.Role)`
abbrev pub role_name : Role → String
role_name Role.admin = "admin"
role_name Role.exec = "exec"
role_name Role.tech = "tech"
role_name (Role.other r) = r

pub record AuditParams : Type 0 where
  pub borrow_id : String
  pub action : String
  pub from_status : Option BorrowStatus
  pub to_status : BorrowStatus
  pub actor : Option Actor
  pub actor_role : String
  pub reason : Option String
  pub created_at : ℕ

abbrev audit_actor_id : Option Actor → Option String
audit_actor_id none = none
audit_actor_id (some a) = some a.id

abbrev pub audit_actor_role : Option Actor → String → String
audit_actor_role none role = role
audit_actor_role (some a) role = role_name a.role

abbrev pub audit_row : String → AuditParams → BorrowAudit
audit_row id p = record {
  id = id;
  borrow_id = p.borrow_id;
  action = p.action;
  from_status = p.from_status;
  to_status = p.to_status;
  actor_id = audit_actor_id p.actor;
  actor_role = audit_actor_role p.actor p.actor_role;
  reason = p.reason;
  created_at = p.created_at;
}

-- `insertAuditTx`
unfoldable pub insert_audit : AuditParams → Action (Unit {0})
insert_audit p = do
  refuse_if (str_eq (audit_actor_role p.actor p.actor_role) "") Error.internal
  id ← new_uuid
  insert_unless (λ db. ltb 0 (count_where (λ a. str_eq a.id id) db.borrow_audit_events))
      (λ db. record db { borrow_audit_events = audit_row id p ∷ db.borrow_audit_events })

abbrev pub has_key : String → OutboxRow → Bool
has_key key o = str_eq o.dedup_key key

abbrev pub has_outbox_key : String → List OutboxRow → Bool
has_outbox_key key rows = ltb 0 (count_where (has_key key) rows)

-- INSERT … ON CONFLICT (dedup_key) DO NOTHING
abbrev pub add_outbox : OutboxRow → List OutboxRow → List OutboxRow
add_outbox o rows = if has_outbox_key o.dedup_key rows then rows else o ∷ rows

abbrev pub outbox_row : String → String → String → String → String → String → ℕ → OutboxRow
outbox_row id borrow_id recipient_id kind message key created_at = record {
  id = id;
  borrow_id = borrow_id;
  recipient_user_id = recipient_id;
  notification_type = kind;
  message = message;
  dedup_key = key;
  processed_at = none;
  created_at = created_at;
}

-- `enqueueNotificationTx`
unfoldable pub enqueue_notification :
    String → String → String → String → String → ℕ → Action (Unit {0})
enqueue_notification borrow_id recipient_id kind message key created_at = do
  id ← new_uuid
  insert_unless
      (λ db.
        ltb 0 (count_where (λ r. str_eq r.id id) db.outbox) && not (has_outbox_key key db.outbox))
      (λ db. record db {
        outbox =
            add_outbox (outbox_row id borrow_id recipient_id kind message key created_at) db.outbox;
      })

-- `fmt.Sprintf("borrow:%s:%s:%s", …)`
abbrev pub outbox_key : String → String → String → String
outbox_key borrow_id event recipient =
    cat_all ("borrow:" ∷ borrow_id ∷ ":" ∷ event ∷ ":" ∷ recipient ∷ [])

-- `enqueueCreatorNotificationTx`
unfoldable pub enqueue_creator_notification :
    BorrowRow → String → String → String → ℕ → Action (Unit {0})
unfolding enqueue_notification
enqueue_creator_notification row kind message event created_at =
    enqueue_notification row.id row.created_by_id kind message
      (outbox_key row.id event row.created_by_id) created_at

unfoldable pub enqueue_all : String → String → String → String → ℕ → List String → Action (Unit {0})
enqueue_all borrow_id kind message event created_at [] = pure tt
enqueue_all borrow_id kind message event created_at (recipient ∷ rest) =
    enqueue_notification borrow_id recipient kind message (outbox_key borrow_id event recipient)
      created_at
    >> enqueue_all borrow_id kind message event created_at rest

abbrev pub is_in : String → Option String → Bool
is_in office none = false
is_in office (some o) = str_eq o office

-- `enqueueLenderExecNotificationsTx`
unfoldable pub enqueue_lender_exec_notifications :
    String → String → String → String → String → ℕ → Action (Unit {0})
unfolding enqueue_all
enqueue_lender_exec_notifications borrow_id lender_office_id kind message event created_at = do
  before ← ask (λ c. c.before)
  recipients ← query (λ db.
      map (λ u. u.id)
        (order_by (λ a b. before a.id b.id)
          (select_where
            (λ u. is_in lender_office_id u.office_id && role_eq u.role Role.exec && u.is_active)
            db.users)))
  enqueue_all borrow_id kind message event created_at recipients

abbrev pub notification_has_key : String → Notification → Bool
notification_has_key key n = elim n.dedup_key [ none ↦ false | some k ↦ str_eq k key ]

abbrev pub add_notification : Notification → String → List Notification → List Notification
add_notification n key rows =
    if ltb 0 (count_where (notification_has_key key) rows) then rows else n ∷ rows

-- GormNotificationRepo.Create, of a notification with a dedup key.
unfoldable pub create_notification : Notification → String → Action (Unit {0})
create_notification n key =
    insert_unless
      (λ db.
        ltb 0 (count_where (λ r. str_eq r.id n.id) db.notifications)
        && not (ltb 0 (count_where (notification_has_key key) db.notifications)))
      (λ db. record db { notifications = add_notification n key db.notifications })

abbrev pub is_pending : OutboxRow → Bool
is_pending o = not (is_some o.processed_at)

abbrev pub delivery : String → OutboxRow → Notification
delivery id row = record {
  id = id;
  user_id = row.recipient_user_id;
  kind = row.notification_type;
  message = row.message;
  work_order_id = none;
  borrow_id = some row.borrow_id;
  discrepancy_id = none;
  dedup_key = some row.dedup_key;
  created_at = row.created_at;
}

abbrev pub mark_processed : String → ℕ → List OutboxRow → List OutboxRow
mark_processed id now =
    update_where (λ o. str_eq o.id id && is_pending o) (λ o. record o { processed_at = some now })

-- The loop of `dispatchPendingNotifications`.
unfoldable pub deliver_all : List OutboxRow → Action (Unit {0})
unfolding create_notification
deliver_all [] = pure tt
deliver_all (row ∷ rows) = do
  id ← new_uuid
  create_notification (delivery id row) row.dedup_key
  now ← time_now
  execute (λ db. record db { outbox = mark_processed row.id now db.outbox })
  deliver_all rows

abbrev pub is_due_for : String → OutboxRow → Bool
is_due_for borrow_id o = is_pending o && (str_eq borrow_id "" || str_eq o.borrow_id borrow_id)

-- `dispatchPendingNotifications`; the empty text asks for every borrow.
unfoldable pub dispatch_pending_notifications : String → Action (Unit {0})
unfolding deliver_all
dispatch_pending_notifications borrow_id = do
  has_notif_repo ← ask (λ c. c.has_notif_repo && c.has_db)
  before ← ask (λ c. c.before)
  if has_notif_repo
      then query (λ db. take 100 (
          order_by
            (λ a b.
              ltb a.created_at b.created_at || (a.created_at == b.created_at && before a.id b.id))
            (select_where (is_due_for borrow_id) db.outbox)))
        >>= deliver_all
      else pure tt

-- `RetryPendingNotifications`
unfoldable pub retry_pending_notifications : Action (Unit {0})
unfolding dispatch_pending_notifications
retry_pending_notifications = dispatch_pending_notifications ""

-- `dispatchNotificationsWithoutAffectingState`
unfoldable pub dispatch_notifications_without_affecting_state : String → Action (Unit {0})
unfolding dispatch_pending_notifications
dispatch_notifications_without_affecting_state borrow_id =
    ignoring (dispatch_pending_notifications borrow_id)
