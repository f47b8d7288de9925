-- ===== src/Webhook/Routing.antt =====
-- From an event to a task: `event_to_task`, `parse_command` and `slash_garden_command` of
-- crates/webhook/src/routes.rs. The id that `uuid` makes for a task is an argument.
pub mod Guards
pub mod Authority
use mathlib.Core.Option as Option
use coven_github.Config.Review.{reviewer, drafts_included, pull_request_enabled}
use coven_github.GitHub.{TaskKind, Task, fix_issue, review_pull_request}
use coven_github.Config.Scopes.{
  RoutingScope, familiar_by_bot, familiar_by_id, familiar_by_label, scope_for,
}
use coven_github.GitHub.Events.{
  PrReviewEvent, PrReviewCommentEvent, PrChangedEvent, IssueLabeledEvent, IssueCommentEvent,
  IssueAssignedEvent, GitHubEvent, issue_assigned, issue_comment, issue_labeled, ping,
  pull_request_changed, pull_request_review, pull_request_review_comment, push, unsupported,
}
use coven_github.Store.Schema.{KindJson, Db}
use coven_github.Config.{FamiliarConfig, Config}
use coven_github.Webhook.Replies.{CommandSurface, command_task}
use coven_github.Webhook.Commands.{MentionKind, Command, parse_mention}
use coven_github.Base.{
  ℕ, Bool, List, Option, String, [], any, find, get_or_else, if◌then◌else◌, is_white_space, nat_Eq,
  none, not, some, split_where, text_Eq, trim_start, true, ◌&&◌, ◌<>◌, ◌==◌, ◌>>=◌, ◌∷◌,
}

-- The first word of `split_whitespace`, empty if there is none, and the text after it.
unfoldable pub next_word : String → String × String
unfolding trim_start split_where
next_word s =
    let (word, rest) = split_where is_white_space (trim_start s) in (word, get_or_else rest "")

unfoldable pub slash_garden_command : String → Bool
unfolding next_word
slash_garden_command body =
    let (first, more) = next_word body in
    let (second, _) = next_word more in first == "/coven" && second == "garden"

abbrev pub scope_at : Config → ℕ → String → String → RoutingScope
scope_at cfg i owner name = scope_for cfg i (owner <> "/" <> name)

abbrev pub fix_task : String → FamiliarConfig → ℕ → String → String → TaskKind → Task
fix_task id f i owner name kind = record {
  id = id;
  installation_id = i;
  repo_owner = owner;
  repo_name = name;
  kind = kind;
  familiar_id = f.id;
  commander = none;
}

unfoldable pub assigned_task : Config → String → IssueAssignedEvent → Option Task
unfolding scope_for familiar_by_bot
assigned_task cfg id e =
    let scope = scope_at cfg e.installation_id e.repo_owner e.repo_name in
    if not scope.triggers.assignment then none else do
      familiar ← familiar_by_bot scope e.assignee_login
      some (
          fix_task id familiar e.installation_id e.repo_owner e.repo_name
            (fix_issue e.issue_number e.issue_title e.issue_body))

unfoldable pub labeled_task : Config → String → IssueLabeledEvent → Option Task
unfolding scope_for familiar_by_label
labeled_task cfg id e =
    let scope = scope_at cfg e.installation_id e.repo_owner e.repo_name in
    if not scope.triggers.labels then none else do
      familiar ← familiar_by_label scope e.label_name
      some (
          fix_task id familiar e.installation_id e.repo_owner e.repo_name
            (fix_issue e.issue_number e.issue_title e.issue_body))

-- The familiar that reviews a pull request that changed: by its label, or by the policy.
unfoldable pub reviewing_familiar : Config → PrChangedEvent → Option FamiliarConfig
unfolding scope_for familiar_by_label familiar_by_id pull_request_enabled drafts_included reviewer
reviewing_familiar cfg e =
    let scope = scope_at cfg e.installation_id e.repo_owner e.repo_name in
    let repo = e.repo_owner <> "/" <> e.repo_name in
    if e.action == "labeled"
    then if not scope.triggers.labels then none else (e.label_name >>= familiar_by_label scope)
    else if not scope.triggers.reviews
    then none
    else if not (pull_request_enabled cfg.review repo)
    then none
    else if e.draft && not (drafts_included cfg.review repo)
    then none
    else (reviewer cfg.review repo >>= familiar_by_id scope)

unfoldable pub changed_task : Config → String → PrChangedEvent → Option Task
unfolding reviewing_familiar
changed_task cfg id e =
    if any (λ (f : FamiliarConfig). f.bot_username == e.author_login) cfg.familiars
    then none
    else do
      familiar ← reviewing_familiar cfg e
      some (
          fix_task id familiar e.installation_id e.repo_owner e.repo_name
            (review_pull_request e.pr_number e.pr_title e.action))

abbrev pub issue_surface : IssueCommentEvent → CommandSurface
issue_surface e = record {
  installation_id = e.installation_id;
  repo_owner = e.repo_owner;
  repo_name = e.repo_name;
  number = e.issue_number;
  title = e.issue_title;
  issue_body = e.issue_body;
  comment_body = e.comment_body;
  on_pull_request = e.on_pull_request;
  commander = e.commenter_login;
}

abbrev pub review_surface : PrReviewEvent → CommandSurface
review_surface e = record {
  installation_id = e.installation_id;
  repo_owner = e.repo_owner;
  repo_name = e.repo_name;
  number = e.pr_number;
  title = e.pr_title;
  issue_body = "";
  comment_body = e.review_body;
  on_pull_request = true;
  commander = e.reviewer_login;
}

abbrev pub review_comment_surface : PrReviewCommentEvent → CommandSurface
review_comment_surface e = record {
  installation_id = e.installation_id;
  repo_owner = e.repo_owner;
  repo_name = e.repo_name;
  number = e.pr_number;
  title = e.pr_title;
  issue_body = "";
  comment_body = e.comment_body;
  on_pull_request = true;
  commander = e.commenter_login;
}

module _ (json : KindJson) (beyond : ℕ → Bool) where
  -- The command that a familiar reads in a comment that is not its own.
  unfoldable pub command_for : String → String → FamiliarConfig → Option Command
  unfolding parse_mention
  command_for body author f =
      if author == f.bot_username then none else elim (parse_mention beyond body f.bot_username) [
        | MentionKind.command c ↦ some c
        | MentionKind.casual ↦ none
        | MentionKind.no_mention ↦ none
      ]

  unfoldable pub first_command :
      String → String → List FamiliarConfig → Option (FamiliarConfig × Command)
  unfolding command_for
  first_command body author [] = none
  first_command body author (f ∷ familiars) = elim (command_for body author f) [
    | some c ↦ some (f, c)
    | none ↦ first_command body author familiars
  ]

  unfoldable pub parse_command : RoutingScope → String → String → Option (FamiliarConfig × Command)
  unfolding slash_garden_command first_command
  parse_command scope body author =
      if slash_garden_command body
      then Option.map (λ (f : FamiliarConfig). (f, Command.garden))
          (find (λ (f : FamiliarConfig). not (author == f.bot_username)) scope.familiars)
      else first_command body author scope.familiars

  -- The three kinds of comment, each on the surface that it is made of.
  unfoldable pub comment_task : Config → Db → String → CommandSurface → Option Task
  unfolding scope_for parse_command command_task
  comment_task cfg db id s =
      let scope = scope_at cfg s.installation_id s.repo_owner s.repo_name in
      if not scope.triggers.commands
      then none
      else elim (parse_command scope s.comment_body s.commander) [
        | none ↦ none
        | some (familiar, c) ↦ some (command_task json cfg db id familiar c s)
      ]

  unfoldable pub event_to_task : Config → Db → String → GitHubEvent → Option Task
  unfolding assigned_task labeled_task comment_task changed_task
  event_to_task cfg db id (issue_assigned e) = assigned_task cfg id e
  event_to_task cfg db id (issue_labeled e) = labeled_task cfg id e
  event_to_task cfg db id (issue_comment e) = comment_task cfg db id (issue_surface e)
  event_to_task cfg db id (pull_request_review e) = comment_task cfg db id (review_surface e)
  event_to_task cfg db id (pull_request_review_comment e) =
      comment_task cfg db id (review_comment_surface e)
  event_to_task cfg db id (pull_request_changed e) = changed_task cfg id e
  event_to_task cfg db id (push e) = none
  event_to_task cfg db id ping = none
  event_to_task cfg db id (unsupported kind) = none
