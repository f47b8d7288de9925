-- ===== src/Webhook/Routing/Authority.antt =====
-- Who may make an event into work, and by which lane (crates/webhook/src/routes.rs).
use coven_github.Store.Cave.{cave_list}
use coven_github.GitHub.Events.{
  GitHubEvent, issue_assigned, issue_comment, issue_labeled, pull_request_changed,
  pull_request_review, pull_request_review_comment, push, unsupported,
}
use coven_github.Webhook.Routing.{
  slash_garden_command, parse_command, first_command, command_for, comment_task, event_to_task,
  issue_surface, review_comment_surface, review_surface,
}
use coven_github.Config.Scopes.Access.{find-holds}
use coven_github.GitHub.{TaskListItem, Task}
use coven_github.Config.Scopes.{RoutingScope, scope_for}
use coven_github.Store.Schema.{KindJson, Db}
use coven_github.Webhook.Routing.Guards.{
  IsReply, Admitted, comment_author, event_target, lane_open, pull_author, assigned-Admitted,
  changed-Admitted, labeled-Admitted,
}
use coven_github.Config.{FamiliarConfig, Config, TriggerPolicy}
use coven_github.Webhook.Replies.{
  command_kind, CommandSurface, command_task, make, familiar_names, items_or_none,
}
use coven_github.Webhook.Commands.{Command}
use coven_github.Base.{
  ℕ, All, AllSome, AllSome-guard, AllSome_found, All_mem, Bool, Bool-cases, List, Memᴰ,
  Option-cases, String, [], false_of_not-eq-true, find, inl, inr, nat_Eq, ne_of_==, not, of_AllSome,
  refl, text_Eq, true, ◌==◌, ◌∷◌, ◌≡◌, ◌≢◌, ◌⊎◌, none, some, ◌<>◌, ◌∙◌, arith,
}

-- A familiar of the scope that did not write the comment itself.
abbrev Addressed : RoutingScope → String → (FamiliarConfig × Command) → Type 0
Addressed scope author found = Memᴰ found.0 scope.familiars × (author ≢ found.0.bot_username)

module _ (json : KindJson) (beyond : ℕ → Bool) where
  command_for-author :
      (body author : String) (f : FamiliarConfig)
      → AllSome (λ (c : Command). author ≢ f.bot_username) (command_for json beyond body author f)
  unfolding command_for
  command_for-author body author f =
      AllSome-guard (λ (c : Command). author ≢ f.bot_username) (author == f.bot_username) _ _
        (λ _. tt)
        (λ other.
          AllSome_found (λ (c : Command). author ≢ f.bot_username) _ (λ c _. ne_of_== _ _ other))

  first_command-Addressed :
      (scope : RoutingScope) (body author : String) (fs : List FamiliarConfig)
      → All (λ (f : FamiliarConfig). Memᴰ f scope.familiars) fs
      → AllSome (Addressed scope author) (first_command json beyond body author fs)
  unfolding first_command
  first_command-Addressed scope body author [] members = tt
  first_command-Addressed scope body author (f ∷ fs) members =
      elim (Option-cases (command_for json beyond body author f)) [
        | inl e ↦ rw (e, AllSome) (first_command-Addressed scope body author fs members.1)
        | inr (c, e) ↦
            rw (e, AllSome) (members.0, of_AllSome _ _ (command_for-author body author f) e)
      ]

  parse_command-Addressed :
      (scope : RoutingScope) (body author : String)
      → AllSome (Addressed scope author) (parse_command json beyond scope body author)
  unfolding parse_command
  parse_command-Addressed scope body author =
      AllSome-guard (Addressed scope author) (slash_garden_command body) _ _
        (λ _.
          let other = λ (f : FamiliarConfig). not (author == f.bot_username) in
          elim (Option-cases (find other scope.familiars)) [
            | inl e ↦ rw (e, AllSome) tt
            | inr (f, e) ↦
                let (h, m) = find-holds other scope.familiars e in
                rw (e, AllSome) (m, ne_of_== _ _ (false_of_not-eq-true _ h))
          ])
        (λ _. first_command-Addressed scope body author scope.familiars (All_mem scope.familiars))

  -- Only a reply is made with no commander.
  command_kind-gated :
      (items : List TaskListItem) (c : Command) (s : CommandSurface)
      → ((command_kind items c s).1 ≡ true) ⊎ IsReply (command_kind items c s).0
  unfolding command_kind
  command_kind-gated items Command.review s = elim (Bool-cases s.on_pull_request) [
    | inl e ↦ inl (rw e refl)
    | inr e ↦ inr (rw e tt)
  ]
  command_kind-gated items Command.deepen s = elim (Bool-cases s.on_pull_request) [
    | inl e ↦ inl (rw e refl)
    | inr e ↦ inr (rw e tt)
  ]
  command_kind-gated items Command.retry s = elim (Bool-cases s.on_pull_request) [
    | inl e ↦ inl (rw e refl)
    | inr e ↦ inl (rw e refl)
  ]
  command_kind-gated items (Command.fix args) s = elim (Bool-cases s.on_pull_request) [
    | inl e ↦ inl (rw e refl)
    | inr e ↦ inl (rw e refl)
  ]
  command_kind-gated items Command.cancel s = elim (Bool-cases s.on_pull_request) [
    | inl e ↦ inl (rw e refl)
    | inr e ↦ inr (rw e tt)
  ]
  command_kind-gated items Command.garden s = inl refl
  command_kind-gated items (Command.remember note) s = inl refl
  command_kind-gated items (Command.forget note) s = inl refl
  command_kind-gated items Command.status s = inr tt
  command_kind-gated items (Command.unknown v) s = inr tt

  command_task-commanded :
      (cfg : Config) (db : Db) (id : String) (f : FamiliarConfig) (c : Command) (s : CommandSurface)
      → let t = command_task json cfg db id f c s in
        (t.commander ≡ some s.commander) ⊎ IsReply t.kind
  unfolding command_task make
  command_task-commanded cfg db id f c s =
      elim (command_kind-gated (items_or_none (cave_list json db (familiar_names cfg) none)) c s) [
        | inl e ↦ inl (rw e refl)
        | inr r ↦ inr r
      ]

  comment-Admitted :
      (cfg : Config) (db : Db) (id : String) (e : GitHubEvent) (s : CommandSurface)
      → event_target e ≡ some (s.installation_id, s.repo_owner, s.repo_name)
      → ((lanes : TriggerPolicy) → lane_open lanes e ≡ lanes.commands)
      → comment_author e ≡ some s.commander
      → pull_author e ≡ none
      → AllSome (Admitted cfg id e) (comment_task json beyond cfg db id s)
  unfolding comment_task command_task make
  comment-Admitted cfg db id e s target lane author none_pull =
      let scope = scope_for cfg s.installation_id (s.repo_owner <> "/" <> s.repo_name) in
      AllSome-guard (Admitted cfg id e) (not scope.triggers.commands) _ _ (λ _. tt)
        (λ on. elim (Option-cases (parse_command json beyond scope s.comment_body s.commander)) [
          | inl q ↦ rw (q, AllSome) tt
          | inr ((f, c), q) ↦
              let (member, other) =
                of_AllSome (Addressed scope s.commander) _
                  (parse_command-Addressed scope s.comment_body s.commander) q in
              rw (q, AllSome)
                (record {
                  familiar = f;
                  identified = refl;
                  assigned = refl;
                  target = target;
                  in_scope = member;
                  lane = lane scope.triggers ∙ ground (arith, on);
                  not_own_comment = rw author other;
                  not_own_pull = rw none_pull tt;
                  commanded = rw author (command_task-commanded cfg db id f c s);
                })
        ])

  event-AllSome :
      (cfg : Config) (db : Db) (id : String) (e : GitHubEvent)
      → AllSome (Admitted cfg id e) (event_to_task json beyond cfg db id e)
  unfolding event_to_task
  event-AllSome cfg db id (issue_assigned e) = assigned-Admitted cfg id e
  event-AllSome cfg db id (issue_labeled e) = labeled-Admitted cfg id e
  event-AllSome cfg db id (issue_comment e) =
      comment-Admitted cfg db id (issue_comment e) (issue_surface e) refl (λ _. refl) refl refl
  event-AllSome cfg db id (pull_request_review e) =
      comment-Admitted cfg db id (pull_request_review e) (review_surface e) refl (λ _. refl) refl
        refl
  event-AllSome cfg db id (pull_request_review_comment e) =
      comment-Admitted cfg db id (pull_request_review_comment e) (review_comment_surface e) refl
        (λ _. refl) refl refl
  event-AllSome cfg db id (pull_request_changed e) = changed-Admitted cfg id e
  event-AllSome cfg db id (push e) = tt
  event-AllSome cfg db id GitHubEvent.ping = tt
  event-AllSome cfg db id (unsupported kind) = tt

-- An event becomes a task only for a familiar in the scope of the installation and repository that
-- it names, by a lane that is open there; a comment never for the familiar that wrote it, and a
-- pull request never where a configured familiar is its author; and the task of a comment carries
-- its author as the commander, unless it is only a reply.
pub event_to_task-Admitted :
    (json : KindJson) (beyond : ℕ → Bool) (cfg : Config) (db : Db) (id : String) (e : GitHubEvent)
    (t : Task)
    → event_to_task json beyond cfg db id e ≡ some t
    → Admitted cfg id e t
event_to_task-Admitted json beyond cfg db id e t h =
    of_AllSome (Admitted cfg id e) _ (event-AllSome json beyond cfg db id e) h
