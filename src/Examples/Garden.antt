-- ===== src/Examples/Garden.antt =====
-- The theorems on the gardener, applied (crates/gardener/src/scan.rs).
use coven_github.Gardener.Complete.{plan_total, branches, entries}
use coven_github.Gardener.Pruning.{plan-Prunable, Prunable}
use coven_github.Base.{
  All, List, [], ends_with, false, lacks, none, refl, some, starts_with, strip_suffix, ◌∷◌, ◌≡◌,
  String,
}
use coven_github.Gardener.{
  GardenPlan, Autonomy, BranchFacts, GardenerPolicy, PruneReason, SkipCode, classify,
  is_proven_bot_only, matches_exclude, matches_exclude_pattern, place, plan, prune_action,
}

abbrev pub stale : BranchFacts
stale = record {
  name = "fix-typo";
  sha = "abc";
  is_protected = false;
  ahead = 0;
  behind = 3;
  ahead_author_logins = [];
  authors_truncated = false;
  open_pr = none;
  merged_pr = some 12;
}

abbrev pub scanned : List BranchFacts
scanned =
    record stale { name = "main" }
    ∷ stale
    ∷ record stale { name = "release/1.2" }
    ∷ record stale { name = "wip"; ahead = 2; ahead_author_logins = "dependabot[bot]" ∷ [] }
    ∷ []

abbrev pruning : GardenerPolicy
pruning = record {
  autonomy = Autonomy.prune_dead;
  default_branch = "main";
  exclude = "release/*" ∷ [];
  draft_pr_label = none;
}

abbrev expected_plan : GardenPlan
expected_plan = record {
  prune = record { branch = "fix-typo"; sha = "abc"; reason = PruneReason.merged 12 } ∷ [];
  would_prune = [];
  surface = [];
  active = [];
  skipped =
      record { branch = "main"; reason = SkipCode.excluded }
      ∷ record { branch = "release/1.2"; reason = SkipCode.excluded }
      ∷ record { branch = "wip"; reason = SkipCode.bot_only_prless }
      ∷ [];
}

plan-Prunable_example : All (Prunable scanned pruning) expected_plan.prune
unfolding plan place classify matches_exclude matches_exclude_pattern strip_suffix lacks starts_with
    ends_with prune_action is_proven_bot_only
plan-Prunable_example = plan-Prunable scanned pruning expected_plan refl

plan_total_example :
    (p : GardenPlan) × (plan scanned pruning ≡ some p)
    × ((name : String) → entries name p ≡ branches name scanned)
plan_total_example = plan_total scanned pruning
