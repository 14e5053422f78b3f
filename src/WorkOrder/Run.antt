-- ===== src/WorkOrder/Run.antt =====
-- The calls of the work order service: HTTP requests and the check of cron.go.
use scc_backend.Base.{ℕ, String, Option}
use scc_backend.Domain.Evidence.{Kind}
use scc_backend.Store.{Coordinate}
use scc_backend.Effect.{Env, Session}
use scc_backend.WorkOrder.Desk.{
  CreateParams, UpdateParams, create_work_order, update_scheduled, assign, cancel_work_order,
}
use scc_backend.WorkOrder.Field.{EvidenceActor, start, scan_install, unscan_install}
use scc_backend.WorkOrder.Submit.{submit_install}
use scc_backend.WorkOrder.Removal.{start_removal, scan_remove, complete_removal}
use scc_backend.WorkOrder.Photos.{
  ObjectStore, prepare_evidence_upload, attach_evidence, presign_evidence_read,
}
use scc_backend.WorkOrder.Cron.{check_removal_due}
use scc_backend.WorkOrder.Stock.{IsSound}
use scc_backend.WorkOrder.Stock.Scans.{scan_install-IsSound, unscan_install-IsSound}
use scc_backend.WorkOrder.Stock.Submits.{submit_install-IsSound}
use scc_backend.WorkOrder.Stock.Removes.{scan_remove-IsSound, attach_evidence-IsSound}
use scc_backend.WorkOrder.Stock.Plans.{
  create_work_order-IsSound, update_scheduled-IsSound, assign-IsSound, cancel_work_order-IsSound,
  start-IsSound, start_removal-IsSound, complete_removal-IsSound,
}
use scc_backend.WorkOrder.Stock.Dues.{
  check_removal_due-IsSound, presign_evidence_read-IsSound, prepare_evidence_upload-IsSound,
}

pub data Call : Type 0 where
  create_call : CreateParams → Call
  update_call : String → UpdateParams → Call
  assign_call cancel_call : String → String → Call
  start_call : EvidenceActor → String → Option Coordinate → Option Coordinate → Call
  scan_install_call unscan_install_call scan_remove_call : EvidenceActor → String → String → Call
  submit_call start_removal_call complete_removal_call : EvidenceActor → String → Call
  prepare_call : EvidenceActor → Kind → String → String → String → ℕ → Call
  attach_call : EvidenceActor → Kind → String → String → String → Call
  read_call : EvidenceActor → Kind → String → String → Call
  removal_due_call : Call

-- What the service reaches outside: the parser of media types, and the object store where it is
-- configured, which may answer each call differently.
pub record Outside : Type 0 where
  pub parse : String → Option String
  pub stores : Option ObjectStore

-- The session that a call leaves, whatever it returns.
abbrev pub serve : Outside → Call → Env → Session → Session
serve o (create_call p) c s = (create_work_order p c s).1
serve o (update_call id p) c s = (update_scheduled id p c s).1
serve o (assign_call id user_id) c s = (assign id user_id c s).1
serve o (cancel_call id reason) c s = (cancel_work_order id reason c s).1
serve o (start_call actor id lat lng) c s = (start actor id lat lng c s).1
serve o (scan_install_call actor id code) c s = (scan_install actor id code c s).1
serve o (unscan_install_call actor id cover_id) c s = (unscan_install actor id cover_id c s).1
serve o (scan_remove_call actor id code) c s = (scan_remove actor id code c s).1
serve o (submit_call actor id) c s = (submit_install actor id c s).1
serve o (start_removal_call actor id) c s = (start_removal actor id c s).1
serve o (complete_removal_call actor id) c s = (complete_removal actor id c s).1
serve o (prepare_call actor kind id cover_id content_type size) c s =
    (prepare_evidence_upload o.parse o.stores actor kind id cover_id content_type size c s).1
serve o (attach_call actor kind id cover_id key) c s =
    (attach_evidence o.parse o.stores actor kind id cover_id key c s).1
serve o (read_call actor kind id cover_id) c s =
    (presign_evidence_read o.stores actor kind id cover_id c s).1
serve o removal_due_call c s = (check_removal_due c s).1

-- A call keeps the stock sound, whatever it returns.
pub serve-IsSound :
    (o : Outside) (call : Call) (c : Env) (s : Session)
    → IsSound s.db
    → IsSound (serve o call c s).db
serve-IsSound o (create_call p) = create_work_order-IsSound p
serve-IsSound o (update_call id p) = update_scheduled-IsSound id p
serve-IsSound o (assign_call id user_id) = assign-IsSound id user_id
serve-IsSound o (cancel_call id reason) = cancel_work_order-IsSound id reason
serve-IsSound o (start_call actor id lat lng) = start-IsSound actor id lat lng
serve-IsSound o (scan_install_call actor id code) = scan_install-IsSound actor id code
serve-IsSound o (unscan_install_call actor id cover_id) = unscan_install-IsSound actor id cover_id
serve-IsSound o (scan_remove_call actor id code) = scan_remove-IsSound actor id code
serve-IsSound o (submit_call actor id) = submit_install-IsSound actor id
serve-IsSound o (start_removal_call actor id) = start_removal-IsSound actor id
serve-IsSound o (complete_removal_call actor id) = complete_removal-IsSound actor id
serve-IsSound o (prepare_call actor kind id cover_id content_type size) =
    prepare_evidence_upload-IsSound o.parse o.stores actor kind id cover_id content_type size
serve-IsSound o (attach_call actor kind id cover_id key) =
    attach_evidence-IsSound o.parse o.stores actor kind id cover_id key
serve-IsSound o (read_call actor kind id cover_id) =
    presign_evidence_read-IsSound o.stores actor kind id cover_id
serve-IsSound o removal_due_call = check_removal_due-IsSound
