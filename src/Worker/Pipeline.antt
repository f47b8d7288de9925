-- ===== src/Worker/Pipeline.antt =====
-- The worker's run of a task around its session, `execute_task_with_minter` of
-- crates/worker/src/lib.rs: the commands that need no session, the steps up to the Check Run, and the
-- publication of the outcome. `token` is the orchestration token.
pub mod Commands
pub mod Prepare
pub mod Conclude
pub mod Governance
pub mod Publish
pub mod Execute
pub mod Total
pub mod Settled
pub mod Shown
use coven_github.Worker.Hub.{Hub, marker, upsert, Reply}
use coven_github.GitHub.{Task}
use coven_github.Config.{FamiliarConfig}
use coven_github.Store.Schema.{Db, Terminal, TerminalState}
use coven_github.Base.{ℕ, String, Option, Bool, decimal, none, some, ◌<>◌}

-- `Terminal::default()` with a state, a summary and a detail.
abbrev pub terminal : TerminalState → Option String → Option String → Terminal
terminal state summary detail = record {
  state = state;
  result_status = none;
  branch = none;
  pr_number = none;
  summary = summary;
  detail = detail;
}

-- The key of a pull request in the queue.
unfoldable pub review_key : Task → ℕ → String
review_key t n = t.repo_owner <> "/" <> t.repo_name <> "#" <> decimal n

abbrev pub repo_of : Task → String
repo_of t = t.repo_owner <> "/" <> t.repo_name

-- What a run that stopped answers: the error, if there is one, with the store and GitHub.
pub record Stopped (W : Type 0) : Type 0 where
  pub failed : Option String
  pub db : Db
  pub world : W

module _ {W : Type 0} (hub : Hub W) (familiar : FamiliarConfig) (t : Task) where
  -- The status comment on a conversation.
  abbrev pub say : W → ℕ → String → Reply Bool × W
  say w n body = upsert hub w n (marker familiar.id t.repo_owner t.repo_name n) body

  -- The status comment on the task's own conversation, if it has one; an error is only logged.
  abbrev pub say_if : W → Option ℕ → String → W
  say_if w none body = w
  say_if w (some n) body = (say w n body).1
