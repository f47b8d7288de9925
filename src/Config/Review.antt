-- ===== src/Config/Review.antt =====
-- The policy of automatic reviews: `ReviewConfig` of crates/config/src/lib.rs.
use coven_github.Base.{Bool, List, Option, String, first_some, get_or_else, keyed, ◌>>=◌}

pub record RepoReviewOverride : Type 0 where
  pub pull_request : Option Bool
  pub include_drafts : Option Bool
  pub familiar : Option String
  pub audit_instruction : Option String
  pub min_severity : Option String
  pub publish : Option String

pub record ReviewConfig : Type 0 where
  pub familiar : Option String
  pub pull_request : Bool
  pub include_drafts : Bool
  pub audit_instruction : Option String
  pub min_severity : Option String
  pub publish : Option String
  pub repos : List (String × RepoReviewOverride)

-- A field of the repository's override, if there is one.
abbrev pub overridden {ℓ κ} :
    {O : Type ℓ} {A : Type κ} → List (String × O) → String → (O → Option A) → Option A
overridden repos repo field = keyed repos repo >>= field

unfoldable pub pull_request_enabled : ReviewConfig → String → Bool
pull_request_enabled c repo =
    get_or_else (overridden c.repos repo (λ (o : RepoReviewOverride). o.pull_request))
      c.pull_request

unfoldable pub drafts_included : ReviewConfig → String → Bool
drafts_included c repo =
    get_or_else (overridden c.repos repo (λ (o : RepoReviewOverride). o.include_drafts))
      c.include_drafts

unfoldable pub reviewer : ReviewConfig → String → Option String
reviewer c repo =
    first_some (overridden c.repos repo (λ (o : RepoReviewOverride). o.familiar)) c.familiar

unfoldable pub audit_instruction_for : ReviewConfig → String → Option String
audit_instruction_for c repo =
    first_some (overridden c.repos repo (λ (o : RepoReviewOverride). o.audit_instruction))
      c.audit_instruction

unfoldable pub min_severity_for : ReviewConfig → String → Option String
min_severity_for c repo =
    first_some (overridden c.repos repo (λ (o : RepoReviewOverride). o.min_severity)) c.min_severity

unfoldable pub publish_for : ReviewConfig → String → Option String
publish_for c repo =
    first_some (overridden c.repos repo (λ (o : RepoReviewOverride). o.publish)) c.publish
