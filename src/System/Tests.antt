-- ===== src/System/Tests.antt =====
-- Both services on the tables of one office.
use scc_backend.Base.{refl, none, some, List, [], ◌∷◌, arith}
use scc_backend.Borrow.Calls
use scc_backend.Borrow.Fixture.{calm, at, asker, request}
use scc_backend.WorkOrder.Fixture.{worker, scanned}
use scc_backend.WorkOrder.Run.{Call, Outside}
use scc_backend.WorkOrder.Stock.{IsSound}
use scc_backend.System.Run.{Request, run_all, run_all-IsSound}

scanned-IsSound : IsSound scanned
scanned-IsSound = record {
  single_cover = λ id. ground arith;
  single_installation = λ id. ground arith;
  ordered = (refl, tt);
  agrees = λ id. ground arith;
  exclusive = λ id. ground arith;
}

abbrev outside : Outside
outside = record { parse = λ s. some s; stores = none }

abbrev requests : List Request
requests =
    Request.work_order outside (Call.scan_install_call worker "w1" "A1")
    ∷ Request.work_order outside (Call.submit_call worker "w1")
    ∷ Request.work_order outside (Call.removal_due_call)
    ∷ Request.work_order outside (Call.start_removal_call worker "w1")
    ∷ Request.work_order outside (Call.scan_remove_call worker "w1" "Q1")
    ∷ Request.work_order outside (Call.complete_removal_call worker "w1")
    ∷ Request.borrow (Calls.Call.create_call request)
    ∷ Request.borrow (Calls.Call.cancel_call "uuid-51" asker "not needed")
    ∷ []

run_all-IsSound_example : IsSound (run_all requests calm (at scanned)).db
run_all-IsSound_example = run_all-IsSound requests calm (at scanned) scanned-IsSound
