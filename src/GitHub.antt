-- ===== src/GitHub.antt =====
-- The task types that the adapter's parts share (crates/github/src/lib.rs), and the projection of a
-- task for the Cave (crates/github/src/tasks.rs).
pub mod Events
use coven_github.Base.{ℕ, String, ◌<>◌, decimal, Option, some}

pub data TaskKind : Type 0 where
  fix_issue : (issue_number : ℕ) (issue_title issue_body : String) → TaskKind
  address_review_comment :
      (pr_number : ℕ) (comment_body : String) (diff_hunk : Option String) → TaskKind
  respond_to_mention : (issue_number : ℕ) (comment_body : String) → TaskKind
  review_pull_request : (pr_number : ℕ) (pr_title reason : String) → TaskKind
  garden_run : (report_issue : Option ℕ) → TaskKind
  command_reply : (issue_number : ℕ) (body : String) → TaskKind
  cancel_reviews : (pr_number : ℕ) → TaskKind

pub record Task : Type 0 where
  pub id : String
  pub installation_id : ℕ
  pub repo_owner : String
  pub repo_name : String
  pub kind : TaskKind
  pub familiar_id : String
  pub commander : Option String

pub data TaskListStatus : Type 0 where
  queued running review done failed superseded : TaskListStatus

pub record TaskListItem : Type 0 where
  pub id : String
  pub repo : String
  pub issue_number : Option ℕ
  pub issue_title : String
  pub branch : Option String
  pub pr_number : Option ℕ
  pub pr_url : Option String
  pub status : TaskListStatus
  pub familiar_id : String
  pub familiar_name : String
  pub session_id : Option String
  pub updated_at : ℕ
  pub check_run_url : Option String

unfoldable pub surface_of : TaskKind → Option ℕ × String
surface_of (fix_issue n title body) = (some n, title)
surface_of (respond_to_mention n body) = (some n, "Respond to issue #" <> decimal n <> " mention")
surface_of (address_review_comment n body hunk) = (some n, "Address review on PR #" <> decimal n)
surface_of (review_pull_request n title reason) =
    (some n, "Review PR #" <> decimal n <> ": " <> title)
surface_of (garden_run report) = (report, "Branch gardener run")
surface_of (command_reply n body) = (some n, "Reply on #" <> decimal n)
surface_of (cancel_reviews n) = (some n, "Cancel queued reviews on PR #" <> decimal n)
