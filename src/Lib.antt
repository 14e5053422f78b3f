-- ===== src/Lib.antt =====
-- scc-backend: insulating covers, the offices that own them, and the loans between the offices.
--
-- The program is a Go service over PostgreSQL. internal/domain holds the statuses, internal/application
-- the services, internal/infrastructure/persistence the tables and queries. The borrow service is the
-- part with the most rules: an office requests covers of another office, exact covers are reserved,
-- the lender approves and hands them over, and takes them back; each step is one transaction that also
-- writes an audit entry and a message in an outbox, which is delivered after the commit. The work order service
-- plans installations of covers at customers: an office plans a quantity, a technician scans covers
-- as drafts, submits them with photo evidence, and later removes them. Both services share the covers:
-- neither may take a cover that the other holds.
--
-- The parts, by file:
--   Base           tests on numbers, lists searched and updated as SQL tables are, texts
--   Domain         internal/domain: statuses and roles (Borrow, Cover, WorkOrder, Role), and the
--                  borrow statuses as a graph (Graph)
--   Store          the tables, internal/infrastructure/persistence/models.go
--   Effect         what a service call does: Monad has the actions (clock, identifiers, SQL
--                  statements that may fail, transactions), Ensures what holds when an action returns a
--                  value, Keeps what holds however it ends, Succeeds when it returns
--                  a value
--   Discrepancy    internal/application/discrepancy/service.go: the shortfall report
--                  (Shortfall: RecordBorrowReturnCapacityShortfallTx) that Return writes
--   Borrow         internal/application/borrow: Actor (who may act), Rows (the statements of
--                  lifecycle.go), Capacity and Create (service.go), Events (events.go), Lifecycle
--                  (lifecycle.go), Cron (cron.go), Detail (persistence/borrow_repo.go; Covers has the covers
--                  of the view), Reads (GetByID of service.go)
--   Borrow/Lifecycle, Borrow/Create, Borrow/Effects   what each statement and each transaction does
--                  when it succeeds
--   Borrow/Calls   the calls of the service against any predicate of the tables
--   Borrow/Consistency   when the tables agree, and the steps of the service as relations
--   Borrow/Custody, Borrow/Transitions, Borrow/Escalation, Borrow/Progress, Borrow/Run
--                  the remaining properties, by what they are about
--   Domain/Evidence  internal/domain/evidence/evidence.go: identifiers, keys of photos, images, with
--                  path.Clean and strings.Split as they are used there
--   WorkOrder      internal/application/workorder/service.go: Rows (the adapters of its transactions),
--                  Planning (capacity and assignment), Desk (Create, UpdateScheduled, Assign, Cancel),
--                  Field (authorization, Start, ScanInstall, UnscanInstall), Submit, Removal, Photos
--                  (the evidence operations); Cron is cron.go
--   WorkOrder/Effects   what each statement does when it succeeds
--   WorkOrder/Stock     the invariant of installations, covers and reservations, and each operation
--                  against it
--   WorkOrder/Outcomes, WorkOrder/Evidence, WorkOrder/Run   the properties, by what they are about
--   System         both services over one sequence of requests: Loans (the borrow service against the
--                  invariant of the stock), Run
--   Login          internal/interfaces/http/handler/login_limiter.go: the windows of failed logins;
--                  Eviction and Bounds (what each map operation keeps), Run
--                  (sequences of calls), Window and Verdict (when an attempt is refused)
--   Borrow/Fixture, Borrow/Tests, WorkOrder/Fixture, WorkOrder/Tests, System/Tests,
--   Login/Tests   the properties at concrete tables
--
-- A Go function has the same name in snake case here: capacitySnapshotTx is
-- capacity_snapshot. The body of a function's transaction is the definition with the suffix _tx.
--
-- How state is modelled. A database is a record of lists of rows (Store.Db). An action takes the
-- environment and a session, and returns a result and a session. The environment says at which
-- statement the database fails, what the clock shows and which identifiers uuid hands out: all are
-- arbitrary functions. A transaction gives
-- the database back as it was when its body, its BEGIN or its COMMIT fails. The transactions of
-- concurrent requests are taken in the order in which they commit: the rows they change are locked in
-- the code by SELECT … FOR UPDATE and by an advisory lock per office. Uniqueness that the schema
-- enforces (primary keys, dedup keys, one active reservation of a cover) is the condition under which
-- an INSERT fails. The order of texts in the database's collation is a parameter. Every loop of the code
-- runs over a list, so there is no fuel. Quantities are natural numbers: a quantity below 1 is refused at
-- once, and 0 stands for those. Instants are nanoseconds. Messages of errors are left out; an error is
-- what errors.Is finds.
--
-- The object store answers as an arbitrary record of functions, one for each call of a run;
-- norm.NFC.String, uuid.Parse and mime.ParseMediaType are arbitrary functions too. A coordinate is the
-- bits of its float64: it is only copied.
--
-- The limiter of failed logins holds its mutex in each operation. A map is a list in the order of a range;
-- the text of an address and strings.ToLower are parameters.
--
-- Not modelled: the HTTP layer but for the limiter, gorm, the tickers of the maintenance, the queries
-- that only read (List, Availability), and the other services: covers, authentication, dashboard, the rest of
-- discrepancies.
pub mod Base
pub mod Domain
pub mod Store
pub mod Effect
pub mod Discrepancy
pub mod Borrow
pub mod WorkOrder
pub mod System
pub mod Login
