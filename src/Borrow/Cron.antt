-- ===== src/Borrow/Cron.antt =====
-- cron.go: one run of the borrow maintenance.
use scc_backend.Base.{ℕ}
use scc_backend.Effect.{Action, ◌>>◌, ignoring}
use scc_backend.Borrow.Events.{retry_pending_notifications}
use scc_backend.Borrow.Lifecycle.{mark_overdue}

-- `CronService.runOnce`: each error is logged, and the retry follows a failed overdue check too.
unfoldable pub run_once : ℕ → Action (Unit {0})
run_once now = ignoring (mark_overdue now) >> ignoring retry_pending_notifications
