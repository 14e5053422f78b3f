-- ===== src/WorkOrder/Photos.antt =====
-- workorder/service.go: PrepareEvidenceUpload, AttachEvidence and PresignEvidenceRead, over an
-- object store.
use scc_backend.Base.{ℕ, String, Bool, true, not, ◌&&◌, ◌||◌, Option, some, str_eq, is_some}
use scc_backend.Domain.Evidence.{
  Kind, is_valid_kind, is_identifier, is_valid_object_key, ObjectMetadata, image_type,
  is_stored_image,
}
use scc_backend.Domain.WorkOrder.{WorkOrderStatus, status_eq}
use scc_backend.Store.{WorkOrder, Installation}
use scc_backend.Effect.{
  Error, Action, ◌>>=◌, ◌>>◌, pure, fail, refuse_if, or_fail, transaction, ask,
}
use scc_backend.WorkOrder.Rows.{
  find_by_id_for_update, find_installation_for_update, update_installation,
}
use scc_backend.WorkOrder.Field.{EvidenceActor, evidence_mutation_allowed, evidence_read_allowed}
use scc_backend.WorkOrder.Submit.{is_evidence}

pub record Upload : Type 0 where
  pub upload_url : String
  pub object_key : String

-- How `Stat` ends.
pub data Stat : Type 0 where
  present : ObjectMetadata → Stat
  absent unavailable : Stat

-- The interface `Store`.
pub record ObjectStore : Type 0 where
  pub presign_put : Kind → String → String → String → ℕ → Option Upload
  pub stat : String → Stat
  pub presign_get : String → Option String

-- `validateEvidenceInput`
unfoldable pub validate_evidence_input : Kind → String → String → Action (Unit {0})
validate_evidence_input kind work_order_id cover_id =
    refuse_if
      (not (is_valid_kind kind)
        || not (is_identifier work_order_id)
        || not (is_identifier cover_id))
      Error.validation

-- The state in which evidence of the kind is accepted.
abbrev pub takes_evidence : Kind → WorkOrder → Installation → Bool
takes_evidence Kind.install w i =
    status_eq w.status WorkOrderStatus.scheduled
    && not (is_some i.installed_at)
    && not (is_some i.removed_at)
takes_evidence Kind.remove w i =
    status_eq w.status WorkOrderStatus.removing && is_some i.installed_at && is_some i.removed_at
takes_evidence (Kind.other k) w i = true

-- `validateEvidenceMutationLocked`
unfoldable pub validate_evidence_mutation :
    EvidenceActor → Kind → String → String → Action Installation
validate_evidence_mutation actor kind work_order_id cover_id = do
  w ← find_by_id_for_update work_order_id
  refuse_if (not (evidence_mutation_allowed actor w)) Error.forbidden
  found ← find_installation_for_update work_order_id cover_id
  i ← or_fail found Error.not_found
  refuse_if (not (takes_evidence kind w i)) Error.state_invalid
  pure i

-- `s.db == nil || s.evidenceStore == nil`
unfoldable pub with_store : Option ObjectStore → Action ObjectStore
with_store store = do
  has_db ← ask (λ c. c.has_db)
  refuse_if (not has_db) Error.evidence_unavailable
  or_fail store Error.evidence_unavailable

abbrev pub photo_of : Kind → Installation → Option String
photo_of Kind.install i = i.photo_install_url
photo_of Kind.remove i = i.photo_remove_url
photo_of (Kind.other k) i = i.photo_remove_url

abbrev pub with_photo : Kind → String → Installation → Installation
with_photo Kind.install key i = record i { photo_install_url = some key }
with_photo Kind.remove key i = record i { photo_remove_url = some key }
with_photo (Kind.other k) key i = record i { photo_remove_url = some key }

-- The key, where it is one of the relation.
unfoldable pub valid_key : Kind → String → String → Option String → Action String
valid_key kind work_order_id cover_id key = do
  is_uuid ← ask (λ c. c.is_uuid)
  refuse_if (not (is_evidence is_uuid kind work_order_id cover_id key)) Error.not_found
  or_fail key Error.not_found

-- The body of the transaction of `PresignEvidenceRead`.
unfoldable pub find_evidence_tx : EvidenceActor → Kind → String → String → Action String
find_evidence_tx actor kind work_order_id cover_id = do
  w ← find_by_id_for_update work_order_id
  refuse_if (not (evidence_read_allowed actor w)) Error.forbidden
  found ← find_installation_for_update work_order_id cover_id
  i ← or_fail found Error.not_found
  valid_key kind work_order_id cover_id (photo_of kind i)

-- `PresignEvidenceRead`
unfoldable pub presign_evidence_read :
    Option ObjectStore → EvidenceActor → Kind → String → String → Action String
presign_evidence_read stores actor kind work_order_id cover_id = do
  validate_evidence_input kind work_order_id cover_id
  store ← with_store stores
  key ← transaction (find_evidence_tx actor kind work_order_id cover_id)
  url ← or_fail (store.presign_get key) Error.evidence_unavailable
  refuse_if (str_eq url "") Error.evidence_unavailable
  pure url

-- The body of the second transaction of `AttachEvidence`.
unfoldable pub attach_tx : EvidenceActor → Kind → String → String → String → Action (Unit {0})
attach_tx actor kind work_order_id cover_id key = do
  i ← validate_evidence_mutation actor kind work_order_id cover_id
  update_installation (with_photo kind key i)

-- The function is `mime.ParseMediaType`'s, which gives the media type of a header.
module _ (parse : String → Option String) where
  unfoldable pub check_stat : Stat → Action (Unit {0})
  check_stat Stat.absent = fail Error.evidence_invalid
  check_stat Stat.unavailable = fail Error.evidence_unavailable
  check_stat (Stat.present m) = refuse_if (not (is_stored_image parse m)) Error.evidence_invalid

  -- `PrepareEvidenceUpload`
  unfoldable pub prepare_evidence_upload :
      Option ObjectStore → EvidenceActor → Kind → String → String → String → ℕ → Action Upload
  prepare_evidence_upload stores actor kind work_order_id cover_id content_type size = do
    validate_evidence_input kind work_order_id cover_id
    normalized_type ← or_fail (image_type parse content_type size) Error.validation
    store ← with_store stores
    allowed ← transaction (validate_evidence_mutation actor kind work_order_id cover_id)
    upload ←
        or_fail (store.presign_put kind work_order_id cover_id normalized_type size)
          Error.evidence_unavailable
    is_uuid ← ask (λ c. c.is_uuid)
    refuse_if
        (str_eq upload.upload_url ""
          || not (is_valid_object_key is_uuid upload.object_key kind work_order_id cover_id))
        Error.evidence_unavailable
    pure upload

  -- `AttachEvidence`
  unfoldable pub attach_evidence :
      Option ObjectStore → EvidenceActor → Kind → String → String → String → Action (Unit {0})
  attach_evidence stores actor kind work_order_id cover_id key = do
    validate_evidence_input kind work_order_id cover_id
    is_uuid ← ask (λ c. c.is_uuid)
    refuse_if (not (is_valid_object_key is_uuid key kind work_order_id cover_id))
        Error.evidence_invalid
    store ← with_store stores
    seen ← transaction (validate_evidence_mutation actor kind work_order_id cover_id)
    check_stat (store.stat key)
    transaction (attach_tx actor kind work_order_id cover_id key)
