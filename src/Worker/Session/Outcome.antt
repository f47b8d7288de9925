-- ===== src/Worker/Session/Outcome.antt =====
-- What a session's result becomes: `terminal_of` and `disposition` of crates/worker/src/lib.rs, and
-- the status that the dashboard shows for it.
use coven_github.Worker.Hub.{CheckConclusion}
use coven_github.Store.Queue.{state_of}
use coven_github.Store.Cave.{project_status}
use coven_github.Store.Schema.{is_none, TerminalState, Terminal}
use coven_github.GitHub.{TaskListStatus}
use coven_github.Base.{
  ℕ, Bool, Option, String, List, false, if◌then◌else◌, is_empty, none, not, some, ◌&&◌, ◌≡◌, refl,
}
use coven_github.Worker.Session.{SessionResult, SessionStatus}

pub record Disposition : Type 0 where
  pub conclusion : CheckConclusion
  pub title : String
  pub open_pr : Bool

-- A review's head that moved while the session ran.
pub record StaleRefs : Type 0 where
  pub reviewed_sha : String
  pub current_sha : String

pub record Published : Type 0 where
  pub result : SessionResult
  pub opened_pr : Option ℕ
  pub changed_files : List String
  pub stale : Option StaleRefs
  pub cited_memory : List String

abbrev terminal_state : SessionStatus → TerminalState
terminal_state SessionStatus.failure = TerminalState.failed
terminal_state _ = TerminalState.completed

abbrev status_text : SessionStatus → String
status_text SessionStatus.success = "success"
status_text SessionStatus.partial = "partial"
status_text SessionStatus.failure = "failure"
status_text SessionStatus.needs_input = "needs_input"

unfoldable pub terminal_of : Published → Terminal
terminal_of p = record {
  state = terminal_state p.result.status;
  result_status = some (status_text p.result.status);
  branch = p.result.branch;
  pr_number = p.opened_pr;
  summary = some p.result.summary;
  detail = none;
}

abbrev disposition_of : SessionStatus → Bool → Disposition
disposition_of SessionStatus.success has_changes = record {
  conclusion = CheckConclusion.success;
  title = "Done";
  open_pr = has_changes;
}
disposition_of SessionStatus.partial has_changes = record {
  conclusion = CheckConclusion.neutral;
  title = "Partial";
  open_pr = has_changes;
}
disposition_of SessionStatus.failure has_changes = record {
  conclusion = CheckConclusion.failure;
  title = "Failed";
  open_pr = false;
}
disposition_of SessionStatus.needs_input has_changes = record {
  conclusion = CheckConclusion.action_required;
  title = "Needs input";
  open_pr = false;
}

unfoldable pub disposition : SessionResult → Disposition
disposition r = disposition_of r.status (not (is_none r.branch) && not (is_empty r.commits))

-- What the dashboard shows of a task that finished with this conclusion.
abbrev pub shown : CheckConclusion → Option ℕ → TaskListStatus
shown CheckConclusion.failure opened_pr = TaskListStatus.failed
shown CheckConclusion.action_required opened_pr = TaskListStatus.review
shown _ opened_pr = if is_none opened_pr then TaskListStatus.done else TaskListStatus.review

shown-status :
    (s : SessionStatus) (opened_pr : Option ℕ) (has_changes : Bool)
    → project_status (state_of (terminal_state s)) (some (status_text s)) opened_pr
      ≡ shown (disposition_of s has_changes).conclusion opened_pr
unfolding project_status state_of
shown-status SessionStatus.success none b = refl
shown-status SessionStatus.success (some n) b = refl
shown-status SessionStatus.partial none b = refl
shown-status SessionStatus.partial (some n) b = refl
shown-status SessionStatus.failure o b = refl
shown-status SessionStatus.needs_input o b = refl

-- The dashboard agrees with the check run: once the terminal record of a published session is
-- stored, a failed check shows as failed, a check that asks for action shows as in review, and any
-- other shows as in review if a pull request was opened and as done if not.
pub project_status-terminal_of :
    (p : Published)
    → let t = terminal_of p in
      project_status (state_of t.state) t.result_status t.pr_number
      ≡ shown (disposition p.result).conclusion p.opened_pr
unfolding terminal_of disposition
project_status-terminal_of p = shown-status p.result.status p.opened_pr _
