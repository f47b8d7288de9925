-- ===== src/Webhook/Payload.antt =====
-- A delivery's payload and its event: crates/webhook/src/events.rs. The parsing of the JSON text into
-- the payload is serde_json's.
pub mod Origin
use mathlib.Core.Option as Option
use coven_github.Base.{
  ℕ, Bool, List, Option, String, false, get_or_else, if◌then◌else◌, length, nat_Eq, none, some,
  strip_prefix, text_Eq, ◌&&◌, ◌==◌, ◌||◌, ◌>>=◌,
}
use coven_github.GitHub.Events.{
  GitHubEvent, issue_assigned, issue_comment, issue_labeled, ping, pull_request_changed,
  pull_request_review, pull_request_review_comment, push, unsupported,
}

pub record Account : Type 0 where
  pub id : ℕ
  pub login : String

pub record Installation : Type 0 where
  pub id : ℕ
  pub account : Option Account

pub record MarketplacePlan : Type 0 where
  pub name : String

pub record MarketplacePurchase : Type 0 where
  pub account : Account
  pub plan : Option MarketplacePlan
  pub on_free_trial : Bool

pub record Owner : Type 0 where
  pub login : String

pub record Repository : Type 0 where
  pub name : String
  pub owner : Owner

-- `pull_request` is any JSON value, of which only the presence counts.
pub record Issue : Type 0 where
  pub number : ℕ
  pub title : String
  pub body : Option String
  pub has_pull_request : Bool

pub record Label : Type 0 where
  pub name : String

pub record User : Type 0 where
  pub login : String

pub record Comment : Type 0 where
  pub body : String
  pub user : User

pub record Review : Type 0 where
  pub body : Option String
  pub user : User
  pub state : Option String

pub record GitRef : Type 0 where
  pub git_ref : String
  pub sha : String

pub record PullRequest : Type 0 where
  pub number : ℕ
  pub title : Option String
  pub draft : Bool
  pub head : Option GitRef
  pub base : Option GitRef
  pub user : Option User

pub record PushCommit : Type 0 where
  pub id : String

pub record WebhookPayload : Type 0 where
  pub action : Option String
  pub installation : Option Installation
  pub repository : Option Repository
  pub issue : Option Issue
  pub comment : Option Comment
  pub review : Option Review
  pub label : Option Label
  pub assignee : Option User
  pub pull_request : Option PullRequest
  pub git_ref : Option String
  pub before : Option String
  pub after : Option String
  pub deleted : Bool
  pub forced : Bool
  pub commits : List PushCommit
  pub sender : Option User
  pub marketplace_purchase : Option MarketplacePurchase

-- payload.action.as_deref() == Some(…)
abbrev pub is_action : WebhookPayload → String → Bool
is_action p name = elim p.action [ none ↦ false | some a ↦ a == name ]

abbrev pub assigned_event : WebhookPayload → Option GitHubEvent
assigned_event p = do
  inst ← p.installation
  repo ← p.repository
  issue ← p.issue
  assignee ← p.assignee
  some (
      issue_assigned (record {
        installation_id = inst.id;
        repo_owner = repo.owner.login;
        repo_name = repo.name;
        issue_number = issue.number;
        issue_title = issue.title;
        issue_body = get_or_else issue.body "";
        assignee_login = assignee.login;
      }))

abbrev pub labeled_event : WebhookPayload → Option GitHubEvent
labeled_event p = do
  inst ← p.installation
  repo ← p.repository
  issue ← p.issue
  label ← p.label
  some (
      issue_labeled (record {
        installation_id = inst.id;
        repo_owner = repo.owner.login;
        repo_name = repo.name;
        issue_number = issue.number;
        issue_title = issue.title;
        issue_body = get_or_else issue.body "";
        label_name = label.name;
      }))

abbrev pub comment_event : WebhookPayload → Option GitHubEvent
comment_event p = do
  inst ← p.installation
  repo ← p.repository
  issue ← p.issue
  comment ← p.comment
  some (
      issue_comment (record {
        installation_id = inst.id;
        repo_owner = repo.owner.login;
        repo_name = repo.name;
        issue_number = issue.number;
        issue_title = issue.title;
        issue_body = get_or_else issue.body "";
        comment_body = comment.body;
        commenter_login = comment.user.login;
        on_pull_request = issue.has_pull_request;
      }))

abbrev pub review_event : WebhookPayload → Option GitHubEvent
review_event p = do
  inst ← p.installation
  repo ← p.repository
  pr ← p.pull_request
  review ← p.review
  some (
      pull_request_review (record {
        installation_id = inst.id;
        repo_owner = repo.owner.login;
        repo_name = repo.name;
        pr_number = pr.number;
        pr_title = get_or_else pr.title "";
        review_body = get_or_else review.body "";
        review_state = get_or_else review.state "";
        reviewer_login = review.user.login;
      }))

abbrev pub review_comment_event : WebhookPayload → Option GitHubEvent
review_comment_event p = do
  inst ← p.installation
  repo ← p.repository
  pr ← p.pull_request
  comment ← p.comment
  some (
      pull_request_review_comment (record {
        installation_id = inst.id;
        repo_owner = repo.owner.login;
        repo_name = repo.name;
        pr_number = pr.number;
        pr_title = get_or_else pr.title "";
        comment_body = comment.body;
        commenter_login = comment.user.login;
      }))

abbrev pub changed_event : WebhookPayload → Option GitHubEvent
changed_event p = do
  inst ← p.installation
  repo ← p.repository
  pr ← p.pull_request
  title ← pr.title
  head ← pr.head
  base ← pr.base
  user ← pr.user
  some (
      pull_request_changed (record {
        installation_id = inst.id;
        repo_owner = repo.owner.login;
        repo_name = repo.name;
        pr_number = pr.number;
        pr_title = title;
        action = get_or_else p.action "";
        label_name = Option.map (λ (l : Label). l.name) p.label;
        head_ref = head.git_ref;
        head_sha = head.sha;
        base_ref = base.git_ref;
        author_login = user.login;
        draft = pr.draft;
      }))

abbrev pub push_event : WebhookPayload → Option GitHubEvent
push_event p = do
  inst ← p.installation
  repo ← p.repository
  git_ref ← p.git_ref
  before ← p.before
  after ← p.after
  sender ← p.sender
  some (
      push (record {
        installation_id = inst.id;
        repo_owner = repo.owner.login;
        repo_name = repo.name;
        branch = strip_prefix "refs/heads/" git_ref;
        before_sha = before;
        after_sha = after;
        deleted = p.deleted;
        forced = p.forced;
        pusher_login = sender.login;
        commit_count = length p.commits;
      }))

abbrev pub reviewed_action : WebhookPayload → Bool
reviewed_action p =
    is_action p "opened"
    || is_action p "synchronize"
    || is_action p "reopened"
    || is_action p "ready_for_review"
    || is_action p "labeled"

-- The arms of the match on the event's type; an arm whose parts are missing falls through.
unfoldable pub event_of : String → WebhookPayload → Option GitHubEvent
unfolding strip_prefix
event_of kind p =
    if kind == "issues" && is_action p "assigned"
    then assigned_event p
    else if kind == "issues" && is_action p "labeled"
    then labeled_event p
    else if kind == "issue_comment" && is_action p "created"
    then comment_event p
    else if kind == "pull_request_review" && is_action p "submitted"
    then review_event p
    else if kind == "pull_request_review_comment" && is_action p "created"
    then review_comment_event p
    else if kind == "pull_request" && reviewed_action p
    then changed_event p
    else if kind == "push"
    then push_event p
    else if kind == "ping"
    then some ping
    else none

unfoldable pub parse_event : String → WebhookPayload → GitHubEvent
unfolding event_of
parse_event kind p = get_or_else (event_of kind p) (unsupported kind)
