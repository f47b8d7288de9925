-- ===== src/Worker/Pipeline/Shown.antt =====
-- What the dashboard and the Check Run tell of an outcome (crates/worker/src/lib.rs,
-- crates/store/src/lib.rs).
use coven_github.Worker.Session.Outcome.{Published, disposition, shown}
use coven_github.Worker.Hub.{Hub, CheckConclusion}
use coven_github.GitHub.{TaskKind, TaskListStatus}
use coven_github.Config.{Config}
use coven_github.Store.Cave.{cave_item}
use coven_github.Store.Queue.{has_id}
use coven_github.Store.Schema.{TaskRow}
use coven_github.Base.{
  some, some, some, some, some, some, some, some, some, some, some, some, some, some, some, List,
  String, All, none, some, true, ◌≡◌,
}

-- The rows of the task are shown with this status, under any names of familiars and any kind.
abbrev pub Lists : String → TaskListStatus → List TaskRow → Type 0
Lists id status rows =
    All
      (λ (r : TaskRow).
        has_id id r ≡ true
        → (names : List (String × String)) (kind : TaskKind)
        → (cave_item names r kind).status ≡ status)
      rows

-- The Check Run's conclusion for an outcome: a review of a head that moved is neutral.
abbrev pub concluded : Published → CheckConclusion
concluded p = elim p.stale [
  | none ↦ (disposition p.result).conclusion
  | some stale ↦ CheckConclusion.neutral
]

-- The dashboard's status for an outcome.
abbrev pub listed : Published → TaskListStatus
listed p = elim p.stale [
  | none ↦ shown (disposition p.result).conclusion p.opened_pr
  | some stale ↦ TaskListStatus.superseded
]
