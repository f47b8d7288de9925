-- ===== src/Webhook/Payload/Origin.antt =====
-- Where an event comes from (crates/webhook/src/events.rs).
use coven_github.Webhook.Routing.Guards.{event_target}
use coven_github.Webhook.Payload.{
  reviewed_action, is_action, review_event, review_comment_event, push_event, parse_event,
  labeled_event, event_of, comment_event, changed_event, assigned_event, WebhookPayload, Repository,
  Installation,
}
use coven_github.GitHub.Events.{GitHubEvent}
use coven_github.Base.{
  ℕ, AllSome, AllSome->>=, AllSome-if, Option-cases, String, inl, inr, nat_Eq, of_AllSome, refl,
  some, text_Eq, ◌&&◌, ◌==◌, ◌≡◌,
}

-- The installation and the repository that the event names are the payload's.
abbrev Origin : WebhookPayload → GitHubEvent → Type 0
Origin p e =
    AllSome
      (λ (target : ℕ × String × String).
        (inst : Installation) × (repo : Repository) × (p.installation ≡ some inst)
        × (p.repository ≡ some repo)
        × (target ≡ (inst.id, repo.owner.login, repo.name)))
      (event_target e)

module _ (p : WebhookPayload) where
  assigned_event-Origin : AllSome (Origin p) (assigned_event p)
  assigned_event-Origin = AllSome->>= (Origin p) p.installation _ (λ inst i.
      AllSome->>= (Origin p) p.repository _ (λ repo r.
        AllSome->>= (Origin p) p.issue _
          (λ issue _. AllSome->>= (Origin p) p.assignee _ (λ who _. (inst, repo, i, r, refl)))))

  labeled_event-Origin : AllSome (Origin p) (labeled_event p)
  labeled_event-Origin = AllSome->>= (Origin p) p.installation _ (λ inst i.
      AllSome->>= (Origin p) p.repository _ (λ repo r.
        AllSome->>= (Origin p) p.issue _
          (λ issue _. AllSome->>= (Origin p) p.label _ (λ label _. (inst, repo, i, r, refl)))))

  comment_event-Origin : AllSome (Origin p) (comment_event p)
  comment_event-Origin = AllSome->>= (Origin p) p.installation _ (λ inst i.
      AllSome->>= (Origin p) p.repository _ (λ repo r.
        AllSome->>= (Origin p) p.issue _
          (λ issue _. AllSome->>= (Origin p) p.comment _ (λ comment _. (inst, repo, i, r, refl)))))

  review_event-Origin : AllSome (Origin p) (review_event p)
  review_event-Origin = AllSome->>= (Origin p) p.installation _ (λ inst i.
      AllSome->>= (Origin p) p.repository _ (λ repo r.
        AllSome->>= (Origin p) p.pull_request _
          (λ pr _. AllSome->>= (Origin p) p.review _ (λ review _. (inst, repo, i, r, refl)))))

  review_comment_event-Origin : AllSome (Origin p) (review_comment_event p)
  review_comment_event-Origin = AllSome->>= (Origin p) p.installation _ (λ inst i.
      AllSome->>= (Origin p) p.repository _ (λ repo r.
        AllSome->>= (Origin p) p.pull_request _
          (λ pr _. AllSome->>= (Origin p) p.comment _ (λ comment _. (inst, repo, i, r, refl)))))

  changed_event-Origin : AllSome (Origin p) (changed_event p)
  changed_event-Origin = AllSome->>= (Origin p) p.installation _ (λ inst i.
      AllSome->>= (Origin p) p.repository _ (λ repo r.
        AllSome->>= (Origin p) p.pull_request _ (λ pr _.
          AllSome->>= (Origin p) pr.title _ (λ title _. AllSome->>= (Origin p) pr.head _ (λ head _.
            AllSome->>= (Origin p) pr.base _
              (λ base _. AllSome->>= (Origin p) pr.user _ (λ user _. (inst, repo, i, r, refl))))))))

  push_event-Origin : AllSome (Origin p) (push_event p)
  push_event-Origin = AllSome->>= (Origin p) p.installation _ (λ inst i.
      AllSome->>= (Origin p) p.repository _ (λ repo r. AllSome->>= (Origin p) p.git_ref _ (λ ref _.
        AllSome->>= (Origin p) p.before _ (λ before _.
          AllSome->>= (Origin p) p.after _ (λ after _.
            AllSome->>= (Origin p) p.sender _ (λ sender _. (inst, repo, i, r, refl)))))))

  event_of-Origin : (kind : String) → AllSome (Origin p) (event_of kind p)
  unfolding event_of
  event_of-Origin kind =
      AllSome-if (Origin p) (kind == "issues" && is_action p "assigned") _ _ assigned_event-Origin (
        AllSome-if (Origin p) (kind == "issues" && is_action p "labeled") _ _ labeled_event-Origin (
          AllSome-if (Origin p) (kind == "issue_comment" && is_action p "created") _ _
            comment_event-Origin
            (AllSome-if (Origin p) (kind == "pull_request_review" && is_action p "submitted") _ _
              review_event-Origin
              (AllSome-if (Origin p)
                (kind == "pull_request_review_comment" && is_action p "created") _ _
                review_comment_event-Origin
                (AllSome-if (Origin p) (kind == "pull_request" && reviewed_action p) _ _
                  changed_event-Origin
                  (AllSome-if (Origin p) (kind == "push") _ _ push_event-Origin
                    (AllSome-if (Origin p) (kind == "ping") _ _ tt tt)))))))

  pub parse_event-Origin : (kind : String) → Origin p (parse_event kind p)
  unfolding parse_event
  parse_event-Origin kind = elim (Option-cases (event_of kind p)) [
    | inl e ↦ rw e tt
    | inr (ev, e) ↦ rw e (of_AllSome (Origin p) _ (event_of-Origin kind) e)
  ]
