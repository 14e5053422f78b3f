-- ===== src/Domain/Graph.antt =====
-- The status machines as graphs: how far a status can move, and where it stops.
use scc_backend.Base.{ℕ, ◌+◌, ◌<◌, ◌≤◌, ◌≡◌, true, arith}
use scc_backend.Domain.Borrow.{BorrowStatus}
use scc_backend.Domain.Borrow

-- A walk along allowed transitions, counted.
pub data BorrowPath : BorrowStatus → BorrowStatus → ℕ → Type 0 where
  stay : (s : BorrowStatus) → BorrowPath s s 0
  step :
      {s t u : BorrowStatus} {n : ℕ}
      → Borrow.is_valid_transition s t ≡ true
      → BorrowPath t u n
      → BorrowPath s u (n + 1)

-- How many transitions a status can still make.
abbrev pub moves_left : BorrowStatus → ℕ
moves_left BorrowStatus.requested = 4
moves_left BorrowStatus.approved = 3
moves_left BorrowStatus.on_loan = 2
moves_left BorrowStatus.overdue = 1
moves_left _ = 0

moves_left-falls :
    (s t : BorrowStatus) → Borrow.is_valid_transition s t ≡ true → moves_left t < moves_left s
unfolding Borrow.is_valid_transition
moves_left-falls s t h = ground arith

-- No sequence of allowed transitions of a borrow is longer than the number of moves that its first
-- status has left, at most four.
pub BorrowPath-bounded :
    {s t : BorrowStatus} {n : ℕ} → BorrowPath s t n → n + moves_left t ≤ moves_left s
BorrowPath-bounded (stay s) = omega arith
BorrowPath-bounded {s} (step {t} h p) = omega (arith, moves_left-falls s t h, BorrowPath-bounded p)
