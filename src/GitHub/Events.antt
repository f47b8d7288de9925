-- ===== src/GitHub/Events.antt =====
-- The typed webhook events (`GitHubEvent` of crates/github/src/lib.rs).
use coven_github.Base.{ℕ, Bool, Option, String}

pub record PrChangedEvent : Type 0 where
  pub installation_id : ℕ
  pub repo_owner : String
  pub repo_name : String
  pub pr_number : ℕ
  pub pr_title : String
  pub action : String
  pub label_name : Option String
  pub head_ref : String
  pub head_sha : String
  pub base_ref : String
  pub author_login : String
  pub draft : Bool

pub record PushEvent : Type 0 where
  pub installation_id : ℕ
  pub repo_owner : String
  pub repo_name : String
  pub branch : Option String
  pub before_sha : String
  pub after_sha : String
  pub deleted : Bool
  pub forced : Bool
  pub pusher_login : String
  pub commit_count : ℕ

pub record IssueAssignedEvent : Type 0 where
  pub installation_id : ℕ
  pub repo_owner : String
  pub repo_name : String
  pub issue_number : ℕ
  pub issue_title : String
  pub issue_body : String
  pub assignee_login : String

pub record IssueLabeledEvent : Type 0 where
  pub installation_id : ℕ
  pub repo_owner : String
  pub repo_name : String
  pub issue_number : ℕ
  pub issue_title : String
  pub issue_body : String
  pub label_name : String

pub record IssueCommentEvent : Type 0 where
  pub installation_id : ℕ
  pub repo_owner : String
  pub repo_name : String
  pub issue_number : ℕ
  pub issue_title : String
  pub issue_body : String
  pub comment_body : String
  pub commenter_login : String
  pub on_pull_request : Bool

pub record PrReviewEvent : Type 0 where
  pub installation_id : ℕ
  pub repo_owner : String
  pub repo_name : String
  pub pr_number : ℕ
  pub pr_title : String
  pub review_body : String
  pub review_state : String
  pub reviewer_login : String

pub record PrReviewCommentEvent : Type 0 where
  pub installation_id : ℕ
  pub repo_owner : String
  pub repo_name : String
  pub pr_number : ℕ
  pub pr_title : String
  pub comment_body : String
  pub commenter_login : String

pub data GitHubEvent : Type 0 where
  issue_assigned : IssueAssignedEvent → GitHubEvent
  issue_labeled : IssueLabeledEvent → GitHubEvent
  issue_comment : IssueCommentEvent → GitHubEvent
  pull_request_review : PrReviewEvent → GitHubEvent
  pull_request_review_comment : PrReviewCommentEvent → GitHubEvent
  pull_request_changed : PrChangedEvent → GitHubEvent
  push : PushEvent → GitHubEvent
  ping : GitHubEvent
  unsupported : String → GitHubEvent
