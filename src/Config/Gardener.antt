-- ===== src/Config/Gardener.antt =====
-- The gardener's policy: `GardenerConfig` and `gardener_policy` of crates/config/src/lib.rs.
use coven_github.Config.Review.{overridden}
use coven_github.Gardener.{Autonomy}
use coven_github.Base.{
  Bool, List, Option, String, first_some, get_or_else, if◌then◌else◌, nat_Eq, text_Eq, ◌==◌,
}

pub record RepoGardenerOverride : Type 0 where
  pub enabled : Option Bool
  pub autonomy : Option String
  pub schedule : Option String
  pub exclude : Option (List String)
  pub draft_pr_label : Option String

pub record GardenerConfig : Type 0 where
  pub enabled : Bool
  pub autonomy : String
  pub schedule : String
  pub exclude : List String
  pub draft_pr_label : Option String
  pub repos : List (String × RepoGardenerOverride)

pub record ResolvedGardenerPolicy : Type 0 where
  pub enabled : Bool
  pub autonomy : Autonomy
  pub schedule : String
  pub exclude : List String
  pub draft_pr_label : Option String

unfoldable pub gardener_autonomy : String → Autonomy
gardener_autonomy value = if value == "prune-dead" then Autonomy.prune_dead else Autonomy.propose

-- The effective policy of a repository: a field of its override, or the global one.
unfoldable pub gardener_policy : GardenerConfig → String → ResolvedGardenerPolicy
unfolding gardener_autonomy
gardener_policy c repo = record {
  enabled =
      get_or_else (overridden c.repos repo (λ (o : RepoGardenerOverride). o.enabled)) c.enabled;
  autonomy =
      gardener_autonomy (
        get_or_else (overridden c.repos repo (λ (o : RepoGardenerOverride). o.autonomy))
          c.autonomy);
  schedule =
      get_or_else (overridden c.repos repo (λ (o : RepoGardenerOverride). o.schedule)) c.schedule;
  exclude =
      get_or_else (overridden c.repos repo (λ (o : RepoGardenerOverride). o.exclude)) c.exclude;
  draft_pr_label =
      first_some (overridden c.repos repo (λ (o : RepoGardenerOverride). o.draft_pr_label))
        c.draft_pr_label;
}
