-- ===== src/WorkOrder/Stock/Dues.antt =====
-- The removal-due check and the signed URLs against the invariant of the stock.
use scc_backend.Base.{ℕ, String, Option, none, some, List, [], ◌∷◌}
use scc_backend.Domain.Evidence.{Kind}
use scc_backend.Store.{WorkOrder}
use scc_backend.Effect.{Session, Result, ok, err}
use scc_backend.Effect.Keeps.{
  Keeps, bind-Keeps, query-Keeps, insert_unless-Keeps, or_fail-Keeps, transaction-Keeps,
  new_uuid-Keeps, time_now-Keeps,
}
use scc_backend.Borrow.Events.{create_notification}
use scc_backend.WorkOrder.Rows.{find_installation_for_update}
use scc_backend.WorkOrder.Field.{EvidenceActor}
use scc_backend.WorkOrder.Photos.{
  ObjectStore, validate_evidence_input, with_store, photo_of, valid_key, find_evidence_tx,
  presign_evidence_read, prepare_evidence_upload,
}
use scc_backend.WorkOrder.Cron.{
  assigned_technician, removal_due_recipients, notify_due, notify_recipients, mark_due, mark_if_due,
  is_due, mark_removal_due_tx, mark_removal_due, join, mark_one, mark_each, check_removal_due,
}
use scc_backend.WorkOrder.Stock.{IsSound}
use scc_backend.WorkOrder.Stock.Removes.{validate-Preserves}
use scc_backend.WorkOrder.Stock.Plans.{
  Keeps-Preserves, cond-Keeps, find-Keeps, update_status_from-Keeps, notifications_IsSound,
}

assigned-Keeps :
    (id : Option String) (w : WorkOrder) → Keeps IsSound (assigned_technician id w.office_id)
unfolding assigned_technician
assigned-Keeps none w = λ c s h. h
assigned-Keeps (some id) w = cond-Keeps _ _ _ (λ c s h. h) (query-Keeps IsSound _)

recipients-Keeps : (w : WorkOrder) → Keeps IsSound (removal_due_recipients w)
unfolding removal_due_recipients
recipients-Keeps w =
    bind-Keeps IsSound _ _ (assigned-Keeps w.assigned_to_id w)
      λ a. bind-Keeps IsSound _ _ (query-Keeps IsSound _) λ e c s h. h

notify_due-Keeps :
    (id : String) (now : ℕ) (users : List String) → Keeps IsSound (notify_due id now users)
unfolding notify_due create_notification
notify_due-Keeps id now [] = λ c s h. h
notify_due-Keeps id now (u ∷ us) = bind-Keeps IsSound _ _ (new_uuid-Keeps IsSound) λ n.
    bind-Keeps IsSound _ _ (insert_unless-Keeps IsSound _ _ (notifications_IsSound _))
      λ _. notify_due-Keeps id now us

notify_recipients-Keeps :
    (id : String) (now : ℕ) (users : List String) → Keeps IsSound (notify_recipients id now users)
unfolding notify_recipients
notify_recipients-Keeps id now [] = λ c s h. h
notify_recipients-Keeps id now (u ∷ us) =
    bind-Keeps IsSound _ _ (λ c s h. h)
      λ b. bind-Keeps IsSound _ _ (λ c s h. h) λ _. notify_due-Keeps id now (u ∷ us)

mark_due-Keeps : (w : WorkOrder) → Keeps IsSound (mark_due w)
unfolding mark_due
mark_due-Keeps w = bind-Keeps IsSound _ _ (recipients-Keeps w) λ us.
    bind-Keeps IsSound _ _ (time_now-Keeps IsSound) λ now.
      bind-Keeps IsSound _ _ (update_status_from-Keeps _ _) λ _. notify_recipients-Keeps w.id now us

mark_if_due-Keeps : (now : ℕ) (found : Option WorkOrder) → Keeps IsSound (mark_if_due now found)
unfolding mark_if_due
mark_if_due-Keeps now none = λ c s h. h
mark_if_due-Keeps now (some w) = cond-Keeps (is_due now w) _ _ (mark_due-Keeps w) (λ c s h. h)

mark_removal_due-Keeps : (id : String) → Keeps IsSound (mark_removal_due id)
unfolding mark_removal_due mark_removal_due_tx
mark_removal_due-Keeps id = transaction-Keeps IsSound _ (
    Keeps-Preserves _ (
      bind-Keeps IsSound _ _ (query-Keeps IsSound _) λ found.
        bind-Keeps IsSound _ _ (time_now-Keeps IsSound) λ now. mark_if_due-Keeps now found))

mark_one-Keeps : (id : String) → Keeps IsSound (mark_one id)
unfolding mark_one
mark_one-Keeps id = cond-Keeps _ _ _ (λ c s h. h) (mark_removal_due-Keeps id)

joined :
    (r : Result (Unit {0})) (p : Result (Unit {0}) × Session)
    → IsSound p.1.db
    → IsSound (join r p).1.db
joined (ok a) (q, s) h = h
joined (err e) (q, s) h = h

mark_each-Keeps : (ids : List String) → Keeps IsSound (mark_each ids)
unfolding mark_each
mark_each-Keeps [] c s h = h
mark_each-Keeps (id ∷ rest) c s h =
    joined (mark_one id c s).0 (mark_each rest c (mark_one id c s).1)
      (mark_each-Keeps rest c (mark_one id c s).1 (mark_one-Keeps id c s h))

-- `CheckRemovalDue` keeps the stock sound, whatever it returns.
pub check_removal_due-IsSound : Keeps IsSound check_removal_due
unfolding check_removal_due
check_removal_due-IsSound =
    bind-Keeps IsSound _ _ (λ c s h. h)
      λ b.
        bind-Keeps IsSound _ _ (λ c s h. h)
          λ _.
            bind-Keeps IsSound _ _ (time_now-Keeps IsSound)
              λ now. bind-Keeps IsSound _ _ (query-Keeps IsSound _) mark_each-Keeps

input-Keeps :
    (kind : Kind) (work_order_id cover_id : String)
    → Keeps IsSound (validate_evidence_input kind work_order_id cover_id)
unfolding validate_evidence_input
input-Keeps kind work_order_id cover_id c s h = h

with_store-Keeps : (stores : Option ObjectStore) → Keeps IsSound (with_store stores)
unfolding with_store
with_store-Keeps stores =
    bind-Keeps IsSound _ _ (λ c s h. h)
      λ b. bind-Keeps IsSound _ _ (λ c s h. h) λ _. or_fail-Keeps IsSound stores _

find_evidence_tx-Keeps :
    (actor : EvidenceActor) (kind : Kind) (work_order_id cover_id : String)
    → Keeps IsSound (find_evidence_tx actor kind work_order_id cover_id)
unfolding find_evidence_tx find_installation_for_update valid_key
find_evidence_tx-Keeps actor kind work_order_id cover_id =
    bind-Keeps IsSound _ _ (find-Keeps work_order_id) λ w.
      bind-Keeps IsSound _ _ (λ c s h. h)
        λ _. bind-Keeps IsSound _ _ (query-Keeps IsSound _) λ found.
          bind-Keeps IsSound _ _ (or_fail-Keeps IsSound found _) λ i.
            bind-Keeps IsSound _ _ (λ c s h. h)
              λ f.
                bind-Keeps IsSound _ _ (λ c s h. h) λ _. or_fail-Keeps IsSound (photo_of kind i) _

-- `PresignEvidenceRead` keeps the stock sound, whatever it returns.
pub presign_evidence_read-IsSound :
    (stores : Option ObjectStore) (actor : EvidenceActor) (kind : Kind)
    (work_order_id cover_id : String)
    → Keeps IsSound (presign_evidence_read stores actor kind work_order_id cover_id)
unfolding presign_evidence_read
presign_evidence_read-IsSound stores actor kind work_order_id cover_id =
    bind-Keeps IsSound _ _ (input-Keeps kind work_order_id cover_id) λ _.
      bind-Keeps IsSound _ _ (with_store-Keeps stores) λ store.
        bind-Keeps IsSound _ _
          (transaction-Keeps IsSound _
            (Keeps-Preserves _ (find_evidence_tx-Keeps actor kind work_order_id cover_id)))
          λ key.
            bind-Keeps IsSound _ _ (or_fail-Keeps IsSound (store.presign_get key) _)
              λ url. bind-Keeps IsSound _ _ (λ c s h. h) λ _ c s h. h

-- `PrepareEvidenceUpload` keeps the stock sound, whatever it returns.
pub prepare_evidence_upload-IsSound :
    (parse : String → Option String) (stores : Option ObjectStore) (actor : EvidenceActor)
    (kind : Kind) (work_order_id cover_id content_type : String) (size : ℕ)
    → Keeps IsSound
        (prepare_evidence_upload parse stores actor kind work_order_id cover_id content_type size)
unfolding prepare_evidence_upload
prepare_evidence_upload-IsSound parse stores actor kind work_order_id cover_id content_type size =
    bind-Keeps IsSound _ _ (input-Keeps kind work_order_id cover_id) λ _.
      bind-Keeps IsSound _ _ (or_fail-Keeps IsSound _ _) λ media.
        bind-Keeps IsSound _ _ (with_store-Keeps stores) λ store.
          bind-Keeps IsSound _ _
            (transaction-Keeps IsSound _ (validate-Preserves actor kind work_order_id cover_id))
            λ i. bind-Keeps IsSound _ _ (or_fail-Keeps IsSound _ _) λ upload.
              bind-Keeps IsSound _ _ (λ c s h. h)
                λ f. bind-Keeps IsSound _ _ (λ c s h. h) λ _ c s h. h
