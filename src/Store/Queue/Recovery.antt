-- ===== src/Store/Queue/Recovery.antt =====
-- What `recover_interrupted` leaves (crates/store/src/lib.rs).
use coven_github.Store.Queue.{requeued, given_up}
use coven_github.Base.{ℕ, if◌then◌else◌, leb}
use coven_github.Store.Schema.{TaskRow, is_running}

-- What becomes of one row: a running one fails if its attempts have reached the budget, and is
-- queued again if not.
unfoldable pub recovered_row : ℕ → ℕ → TaskRow → TaskRow
recovered_row now max r =
    if is_running r.state
    then (if leb max r.attempts then given_up now r else requeued now r)
    else r
