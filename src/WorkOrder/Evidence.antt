-- ===== src/WorkOrder/Evidence.antt =====
-- Who may see and change the photos of a work order.
use scc_backend.Base.{◌≡◌, true, arith}
use scc_backend.Store.{WorkOrder}
use scc_backend.WorkOrder.Field.{EvidenceActor, evidence_mutation_allowed, evidence_read_allowed}

-- Whoever may change the evidence of a work order may read it.
pub evidence_mutation_allowed-read :
    (actor : EvidenceActor) (w : WorkOrder)
    → evidence_mutation_allowed actor w ≡ true
    → evidence_read_allowed actor w ≡ true
unfolding evidence_mutation_allowed evidence_read_allowed
evidence_mutation_allowed-read actor w h = ground arith
