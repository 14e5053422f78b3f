-- ===== src/System/Run.antt =====
-- Both services over one sequence of calls: HTTP requests and the maintenance of the two cron.go, in
-- the order in which their transactions commit.
use scc_backend.Base.{List, [], ◌∷◌}
use scc_backend.Effect.{Env, Session}
use scc_backend.Borrow.Calls
use scc_backend.WorkOrder.Run.{Outside}
use scc_backend.WorkOrder.Run
use scc_backend.WorkOrder.Stock.{IsSound}
use scc_backend.System.Loans.{IsSound-steps}

pub data Request : Type 0 where
  borrow : Calls.Call → Request
  work_order : Outside → Run.Call → Request

-- The session that a request leaves, whatever it returns.
abbrev pub serve : Request → Env → Session → Session
serve (borrow call) c s = Calls.serve call c s
serve (work_order o call) c s = Run.serve o call c s

abbrev pub run_all : List Request → Env → Session → Session
run_all [] c s = s
run_all (r ∷ rs) c s = run_all rs c (serve r c s)

serve-IsSound : (r : Request) (c : Env) (s : Session) → IsSound s.db → IsSound (serve r c s).db
serve-IsSound (borrow call) = Calls.serve-Keeps IsSound IsSound-steps call
serve-IsSound (work_order o call) = Run.serve-IsSound o call

-- Every sequence of requests to the borrow service and the work order service, successful or not,
-- with statements that fail at any point and with any answers of the object store, leaves a sound
-- stock sound: covers and installations have unique ids; nothing is removed that was not installed;
-- the live installations of a cover id are as many as its covers that are INSTALLED; and no cover is
-- in more than one open installation or active borrow reservation, both together.
pub run_all-IsSound :
    (rs : List Request) (c : Env) (s : Session) → IsSound s.db → IsSound (run_all rs c s).db
run_all-IsSound [] c s h = h
run_all-IsSound (r ∷ rs) c s h = run_all-IsSound rs c (serve r c s) (serve-IsSound r c s h)
