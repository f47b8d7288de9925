-- ===== src/Webhook/Routing/Guards.antt =====
-- What a task that an event becomes was let through by (crates/webhook/src/routes.rs).
use coven_github.Config.Review.{reviewer, drafts_included, pull_request_enabled}
use coven_github.Config.Scopes.{familiar_by_bot, scope_for, familiar_by_id, familiar_by_label}
use coven_github.Webhook.Routing.{assigned_task, changed_task, labeled_task, reviewing_familiar}
use coven_github.Config.Scopes.Access.{find-holds}
use coven_github.GitHub.{command_reply, TaskKind, Task}
use coven_github.GitHub.Events.{
  unsupported, push, pull_request_review_comment, pull_request_review, issue_labeled,
  pull_request_changed, issue_comment, issue_assigned, IssueAssignedEvent, GitHubEvent,
  IssueLabeledEvent, PrChangedEvent,
}
use coven_github.Config.{TriggerPolicy, FamiliarConfig, Config}
use coven_github.Base.{
  ℕ, All, AllSome, AllSome->>=, AllSome-guard, Bool, Memᴰ, Option, String, arith, false,
  if◌then◌else◌, nat_Eq, none, not, refl, some, text_Eq, true, ◌<>◌, ◌==◌, ◌≡◌, ◌≢◌, ◌⊎◌, All-map,
  AllSome-if, AllSome_found, All_of_any-false, any, ne_of_==, of_AllSome, ◌&&◌,
}

-- The installation and the repository that an event names.
abbrev pub event_target : GitHubEvent → Option (ℕ × String × String)
event_target (issue_assigned e) = some (e.installation_id, e.repo_owner, e.repo_name)
event_target (issue_labeled e) = some (e.installation_id, e.repo_owner, e.repo_name)
event_target (issue_comment e) = some (e.installation_id, e.repo_owner, e.repo_name)
event_target (pull_request_review e) = some (e.installation_id, e.repo_owner, e.repo_name)
event_target (pull_request_review_comment e) = some (e.installation_id, e.repo_owner, e.repo_name)
event_target (pull_request_changed e) = some (e.installation_id, e.repo_owner, e.repo_name)
event_target (push e) = some (e.installation_id, e.repo_owner, e.repo_name)
event_target GitHubEvent.ping = none
event_target (unsupported kind) = none

-- The lane that an event comes by.
abbrev pub lane_open : TriggerPolicy → GitHubEvent → Bool
lane_open lanes (issue_assigned e) = lanes.assignment
lane_open lanes (issue_labeled e) = lanes.labels
lane_open lanes (issue_comment e) = lanes.commands
lane_open lanes (pull_request_review e) = lanes.commands
lane_open lanes (pull_request_review_comment e) = lanes.commands
lane_open lanes (pull_request_changed e) =
    if e.action == "labeled" then lanes.labels else lanes.reviews
lane_open lanes _ = false

-- Who wrote the comment of an event that carries one.
abbrev pub comment_author : GitHubEvent → Option String
comment_author (issue_comment e) = some e.commenter_login
comment_author (pull_request_review e) = some e.reviewer_login
comment_author (pull_request_review_comment e) = some e.commenter_login
comment_author _ = none

abbrev pub pull_author : GitHubEvent → Option String
pull_author (pull_request_changed e) = some e.author_login
pull_author _ = none

abbrev pub IsReply : TaskKind → Type 0
IsReply (command_reply n body) = Unit
IsReply _ = ⊥

-- A task and the familiar that it is for, let through by an event.
pub record Admitted (cfg : Config) (id : String) (e : GitHubEvent) (t : Task) : Type 0 where
  pub familiar : FamiliarConfig
  pub identified : t.id ≡ id
  pub assigned : familiar.id ≡ t.familiar_id
  pub target : event_target e ≡ some (t.installation_id, t.repo_owner, t.repo_name)
  pub in_scope :
      Memᴰ familiar (scope_for cfg t.installation_id (t.repo_owner <> "/" <> t.repo_name)).familiars
  pub lane :
      lane_open (scope_for cfg t.installation_id (t.repo_owner <> "/" <> t.repo_name)).triggers e
      ≡ true
  -- Nobody commands by a comment that a familiar wrote about itself, and no familiar's pull request
  -- is reviewed.
  pub not_own_comment : AllSome (λ (a : String). a ≢ familiar.bot_username) (comment_author e)
  pub not_own_pull :
      AllSome
        (λ (a : String). All (λ (f : FamiliarConfig). f.bot_username ≢ a) cfg.familiars)
        (pull_author e)
  -- A comment's work carries its author, for the worker to check.
  pub commanded :
      AllSome (λ (a : String). (t.commander ≡ some a) ⊎ IsReply t.kind) (comment_author e)

module _ (cfg : Config) (id : String) where
  pub assigned-Admitted :
      (e : IssueAssignedEvent)
      → AllSome (Admitted cfg id (issue_assigned e)) (assigned_task cfg id e)
  unfolding assigned_task familiar_by_bot
  assigned-Admitted e =
      let scope = scope_for cfg e.installation_id (e.repo_owner <> "/" <> e.repo_name) in
      AllSome-guard _ (not scope.triggers.assignment) _ _ (λ _. tt)
        (λ on. AllSome->>= _ (familiar_by_bot scope e.assignee_login) _ (λ f found. record {
          familiar = f;
          identified = refl;
          assigned = refl;
          target = refl;
          in_scope = (find-holds _ _ found).1;
          lane = ground (arith, on);
          not_own_comment = tt;
          not_own_pull = tt;
          commanded = tt;
        }))

  pub labeled-Admitted :
      (e : IssueLabeledEvent) → AllSome (Admitted cfg id (issue_labeled e)) (labeled_task cfg id e)
  unfolding labeled_task familiar_by_label
  labeled-Admitted e =
      let scope = scope_for cfg e.installation_id (e.repo_owner <> "/" <> e.repo_name) in
      AllSome-guard _ (not scope.triggers.labels) _ _ (λ _. tt)
        (λ on. AllSome->>= _ (familiar_by_label scope e.label_name) _ (λ f found. record {
          familiar = f;
          identified = refl;
          assigned = refl;
          target = refl;
          in_scope = (find-holds _ _ found).1;
          lane = ground (arith, on);
          not_own_comment = tt;
          not_own_pull = tt;
          commanded = tt;
        }))

  -- The familiar is in the scope, and the event's lane is open.
  abbrev Reviews : PrChangedEvent → FamiliarConfig → Type 0
  Reviews e f =
      let scope = scope_for cfg e.installation_id (e.repo_owner <> "/" <> e.repo_name) in
      Memᴰ f scope.familiars × (lane_open scope.triggers (pull_request_changed e) ≡ true)

  reviewing-scoped : (e : PrChangedEvent) → AllSome (Reviews e) (reviewing_familiar cfg e)
  unfolding reviewing_familiar familiar_by_label familiar_by_id
  reviewing-scoped e =
      let scope = scope_for cfg e.installation_id (e.repo_owner <> "/" <> e.repo_name) in
      let repo = e.repo_owner <> "/" <> e.repo_name in
      AllSome-guard (Reviews e) (e.action == "labeled") _ _
        (λ labeled.
          AllSome-guard (Reviews e) (not scope.triggers.labels) _ _ (λ _. tt)
            (λ on. AllSome->>= (Reviews e) e.label_name (familiar_by_label scope) (λ label _.
              AllSome_found (Reviews e) (familiar_by_label scope label)
                (λ f found. ((find-holds _ _ found).1, ground (arith, labeled, on))))))
        (λ unlabeled.
          AllSome-guard (Reviews e) (not scope.triggers.reviews) _ _ (λ _. tt)
            (λ on. AllSome-if (Reviews e) (not (pull_request_enabled cfg.review repo)) _ _ tt (
              AllSome-if (Reviews e) (e.draft && not (drafts_included cfg.review repo)) _ _ tt (
                AllSome->>= (Reviews e) (reviewer cfg.review repo) (familiar_by_id scope) (λ who _.
                  AllSome_found (Reviews e) (familiar_by_id scope who)
                    (λ f found. ((find-holds _ _ found).1, ground (arith, unlabeled, on))))))))

  pub changed-Admitted :
      (e : PrChangedEvent)
      → AllSome (Admitted cfg id (pull_request_changed e)) (changed_task cfg id e)
  unfolding changed_task
  changed-Admitted e =
      AllSome-guard _ (any (λ (f : FamiliarConfig). f.bot_username == e.author_login) cfg.familiars)
        _ _ (λ _. tt)
        (λ other. AllSome->>= _ (reviewing_familiar cfg e) _ (λ f found.
          let (member, on) = of_AllSome _ _ (reviewing-scoped e) found in
          record {
            familiar = f;
            identified = refl;
            assigned = refl;
            target = refl;
            in_scope = member;
            lane = on;
            not_own_comment = tt;
            not_own_pull =
                All-map cfg.familiars (λ g e. ne_of_== _ _ e)
                  (All_of_any-false _ cfg.familiars other);
            commanded = tt;
          }))
