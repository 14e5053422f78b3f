-- ===== src/Borrow/Run.antt =====
-- The borrow service over a sequence of calls: HTTP requests and the maintenance of cron.go, in
-- the order in which their transactions commit.
use scc_backend.Base.{List, [], ◌≡◌, refl, arith}
use scc_backend.Store.{Db}
use scc_backend.Effect.{Env, Session}
use scc_backend.Borrow.Calls.{Call, run, run-Keeps}
use scc_backend.Borrow.Consistency.Calls.{IsConsistent-steps}
use scc_backend.Borrow.Consistency.{IsConsistent}

-- Every sequence of calls of the borrow service, successful or not, with statements that fail at
-- any point, leaves consistent tables consistent: the links of each borrow agree with its
-- requested quantity and its status, no cover is in two active reservations, the status of each
-- borrow is the one its audit trail ends in, the trail takes allowed transitions only, and the
-- outbox holds no key twice.
pub run-IsConsistent :
    (calls : List Call) (c : Env) (s : Session)
    → IsConsistent s.db
    → IsConsistent (run calls c s).db
run-IsConsistent = run-Keeps IsConsistent IsConsistent-steps

-- Tables without a borrow are consistent.
pub empty-IsConsistent :
    (db : Db)
    → db.borrows ≡ []
    → db.borrow_covers ≡ []
    → db.borrow_audit_events ≡ []
    → db.outbox ≡ []
    → IsConsistent db
empty-IsConsistent db b l a o = record {
  unique = λ id. rw b (omega arith);
  links = λ id. rw (b, l) refl;
  exclusive = λ cover_id. rw l (omega arith);
  recorded = λ id. rw (b, a) refl;
  chained = rw a tt;
  sent_once = λ key. rw o (omega arith);
}
