-- ===== src/Worker/Brief.antt =====
-- The session brief: crates/worker/src/brief.rs. `none` stands for the panic of the code on a
-- gardener's run; a path is its text. Of the JSON of `review_context` the brief has the file names
-- here, and the memory policy is kept as a record.
use coven_github.Worker.Memory.{MemoryPolicy}
use coven_github.GitHub.{
  garden_run, cancel_reviews, address_review_comment, command_reply, fix_issue, review_pull_request,
  respond_to_mention, TaskKind, Task,
}
use coven_github.Config.{FamiliarConfig}
use mathlib.Core.Option as Option
use coven_github.Base.{ℕ, List, String, Option, decimal, none, some, ◌<>◌, ◌>>=◌}

abbrev headless_contract_version : String
headless_contract_version = "2"

pub record RepoBrief : Type 0 where
  pub owner : String
  pub name : String
  pub clone_url : String
  pub default_branch : String

pub data TaskBrief : Type 0 where
  fix_issue_brief : (issue_number : ℕ) (issue_title issue_body : String) → TaskBrief
  address_review_comment_brief :
      (pr_number : ℕ) (comment_body : String) (diff_hunk : Option String) → TaskBrief
  respond_to_mention_brief : (issue_number : ℕ) (comment_body : String) → TaskBrief

pub record FamiliarBrief : Type 0 where
  pub id : String
  pub display_name : String
  pub model : Option String
  pub skills : List String

pub record WorkspaceBrief : Type 0 where
  pub root : String

pub record SessionBrief : Type 0 where
  pub contract_version : String
  pub trigger : String
  pub repo : RepoBrief
  pub task : TaskBrief
  pub familiar : FamiliarBrief
  pub workspace : WorkspaceBrief
  pub review_context : Option (List String)
  pub audit_instruction : Option String
  pub memory_policy : Option MemoryPolicy

pub record ReviewContext : Type 0 where
  pub files : List String
  pub audit_instruction : Option String

unfoldable pub trigger_of : TaskKind → Option String
trigger_of (fix_issue n title body) = some "issue_assigned"
trigger_of (address_review_comment n body hunk) = some "pr_review_comment"
trigger_of (respond_to_mention n body) = some "issue_mention"
trigger_of (review_pull_request n title reason) = some "pr_review_comment"
trigger_of (command_reply n body) = some "issue_mention"
trigger_of (cancel_reviews n) = some "issue_mention"
trigger_of (garden_run report_issue) = none

unfoldable pub task_brief : TaskKind → Option TaskBrief
task_brief (fix_issue n title body) = some (fix_issue_brief n title body)
task_brief (address_review_comment n body hunk) = some (address_review_comment_brief n body hunk)
task_brief (respond_to_mention n body) = some (respond_to_mention_brief n body)
task_brief (command_reply n body) = some (respond_to_mention_brief n body)
task_brief (cancel_reviews n) =
    some (respond_to_mention_brief n ("Cancel queued reviews for PR #" <> decimal n <> "."))
task_brief (garden_run report_issue) = none
task_brief (review_pull_request n title reason) = some (
    address_review_comment_brief n
      ("Hosted review requested for PR #"
        <> decimal n
        <> " (\""
        <> title
        <> "\", trigger: "
        <> reason
        <> "). Review the changed files listed in review_context and report findings through the structured review evidence. Do not modify code.")
      none)

abbrev audit_of : Option ReviewContext → Option String
audit_of none = none
audit_of (some r) = r.audit_instruction

unfoldable pub build :
    Task
    → FamiliarConfig
    → String
    → String
    → Option ReviewContext
    → Option MemoryPolicy
    → Option SessionBrief
unfolding trigger_of task_brief
build t familiar workspace default_branch review memory_policy = do
  trigger ← trigger_of t.kind
  brief ← task_brief t.kind
  some (record {
    contract_version = headless_contract_version;
    trigger = trigger;
    repo = record {
      owner = t.repo_owner;
      name = t.repo_name;
      clone_url = "https://github.com/" <> t.repo_owner <> "/" <> t.repo_name <> ".git";
      default_branch = default_branch;
    };
    task = brief;
    familiar = record {
      id = familiar.id;
      display_name = familiar.display_name;
      model = familiar.model;
      skills = familiar.skills;
    };
    workspace = record { root = workspace };
    review_context = Option.map (λ (r : ReviewContext). r.files) review;
    audit_instruction = audit_of review;
    memory_policy = memory_policy;
  })
