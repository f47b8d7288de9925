-- ===== src/Worker/Garden.antt =====
-- A gardener run: crates/worker/src/gardener_exec.rs. What only logs is left out.
use coven_github.Config.Gardener.{ResolvedGardenerPolicy}
use coven_github.Gardener.Report.{ExecutionCounts, no_counts}
use coven_github.Worker.Hub.{
  Reply, Hub, HeadPullRequest, GitHubBranch, CompareAheadBehind, TokenRole, got, lost,
}
use coven_github.Gardener.{
  SurfaceAction, SkipReason, SkipCode, PruneAction, GardenPlan, BranchFacts, matches_exclude,
}
use mathlib.Core.Option as Option
use coven_github.Base.{
  ℕ, Bool, List, Option, String, [], decimal, false, find, if◌then◌else◌, nat_Eq, none, not, some,
  suc, text_Eq, ◌++◌, ◌<>◌, ◌==◌, ◌||◌, ◌∷◌, is_empty,
}

abbrev pub facts_excluded : GitHubBranch → BranchFacts
facts_excluded b = record {
  name = b.name;
  sha = b.sha;
  is_protected = b.is_protected;
  ahead = 0;
  behind = 0;
  ahead_author_logins = [];
  authors_truncated = false;
  open_pr = none;
  merged_pr = none;
}

abbrev pub pull_where : (HeadPullRequest → Bool) → List HeadPullRequest → Option ℕ
pull_where p pulls = Option.map (λ (x : HeadPullRequest). x.number) (find p pulls)

abbrev pub facts_scanned : GitHubBranch → CompareAheadBehind → List HeadPullRequest → BranchFacts
facts_scanned b c pulls = record {
  name = b.name;
  sha = b.sha;
  is_protected = b.is_protected;
  ahead = c.ahead_by;
  behind = c.behind_by;
  ahead_author_logins = c.author_logins;
  authors_truncated = c.truncated;
  open_pr = pull_where (λ (x : HeadPullRequest). x.state == "open") pulls;
  merged_pr = pull_where (λ (x : HeadPullRequest). x.merged) pulls;
}

abbrev pub then_facts :
    {W : Type 0} → BranchFacts → (Reply (List BranchFacts) × W) → Reply (List BranchFacts) × W
then_facts f (got facts, w) = (got (f ∷ facts), w)
then_facts f (lost e, w) = (lost e, w)

unfoldable pub surface_body : String → ℕ → String
surface_body branch ahead =
    "Opened by the Branch Gardener to surface `"
    <> branch
    <> "` for maintainer review.\n\nThis branch is "
    <> decimal ahead
    <> " commit(s) ahead of the default branch."

abbrev pub ahead_of : List BranchFacts → String → ℕ
ahead_of facts branch = elim (find (λ (f : BranchFacts). f.name == branch) facts) [
  | none ↦ 0
  | some f ↦ f.ahead
]

-- The facts that a pruning comes from, which the code `expect`s where it logs the branch's class.
abbrev pub source_of : List BranchFacts → PruneAction → Option BranchFacts
source_of facts a = find (λ (f : BranchFacts). f.name == a.branch) facts

abbrev pub withheld_branch : String → SkipReason
withheld_branch branch = record { branch = branch; reason = SkipCode.withheld }

abbrev pub count_pruned : ExecutionCounts → ExecutionCounts
count_pruned n = record n { pruned = suc n.pruned }

abbrev pub count_moved : ExecutionCounts → ExecutionCounts
count_moved n = record n { prune_skipped_moved = suc n.prune_skipped_moved }

abbrev pub count_surfaced : ExecutionCounts → ExecutionCounts
count_surfaced n = record n { surfaced = suc n.surfaced }

module _ {W : Type 0} (hub : Hub W) where
  -- The loop over the branches: the first call that fails ends it.
  unfoldable pub scan_each :
      W → ResolvedGardenerPolicy → String → List GitHubBranch → Reply (List BranchFacts) × W
  unfolding matches_exclude
  scan_each w policy default_branch [] = (got [], w)
  scan_each w policy default_branch (b ∷ branches) =
      let excluded =
        b.name == default_branch || b.is_protected || matches_exclude b.name policy.exclude in
      let (compared, w1) = hub.compare_ahead_behind w default_branch b.name in
      let (listed, w2) = hub.list_pulls_by_head w1 b.name in
      let after_skip = scan_each w policy default_branch branches in
      let after_scan = scan_each w2 policy default_branch branches in
      if excluded then then_facts (facts_excluded b) after_skip else elim compared [
        | lost e ↦ (lost e, w1)
        | got c ↦ elim listed [
          | lost e ↦ (lost e, w2)
          | got pulls ↦ then_facts (facts_scanned b c pulls) after_scan
        ]
      ]

  unfoldable pub scan_garden_branches :
      W → ResolvedGardenerPolicy → Reply (String × List BranchFacts) × W
  unfolding scan_each
  scan_garden_branches w policy =
      let (found, w1) = hub.get_repo w in
      elim found [
        | lost e ↦ (lost e, w1)
        | got default_branch ↦
            let (listed, w2) = hub.list_branches w1 in
            elim listed [
              | lost e ↦ (lost e, w2)
              | got branches ↦
                  let (scanned, w3) = scan_each w2 policy default_branch branches in
                  elim scanned [
                    | lost e ↦ (lost e, w3)
                    | got facts ↦ (got (default_branch, facts), w3)
                  ]
            ]
      ]

  -- A branch is deleted only if its commit is still the one that was scanned.
  unfoldable pub prune_one : W → PruneAction → ExecutionCounts → ExecutionCounts × W
  prune_one w a n =
      let (current, w1) = hub.get_branch_sha w a.branch in
      let (deleted, w2) = hub.delete_ref w1 a.branch in
      elim current [
        | lost e ↦ (count_moved n, w1)
        | got sha ↦
            if not (sha == a.sha)
            then (count_moved n, w1)
            else elim deleted [ lost e ↦ (count_moved n, w2) | got done ↦ (count_pruned n, w2) ]
      ]

  -- `none` where the code panics: a pruning whose branch was not scanned.
  unfoldable pub prune_each :
      W → List BranchFacts → List PruneAction → ExecutionCounts → Option (ExecutionCounts × W)
  unfolding prune_one
  prune_each w facts [] n = some (n, w)
  prune_each w facts (a ∷ actions) n =
      let (m, w1) = prune_one w a n in
      let rest = prune_each w1 facts actions m in
      elim (source_of facts a) [ none ↦ none | some f ↦ rest ]

  abbrev pub labelled : W → ℕ → Option String → W
  labelled w number none = w
  labelled w number (some label) = (hub.add_labels_to_issue w number label).1

  -- A branch that cannot be surfaced is withheld.
  unfoldable pub surface_one :
      W
      → String
      → List BranchFacts
      → SurfaceAction
      → (GardenPlan × ExecutionCounts)
      → (GardenPlan × ExecutionCounts) × W
  unfolding surface_body
  surface_one w default_branch facts a (p, n) =
      let (opened, w1) =
        hub.open_pull_request w a.branch default_branch ("Surface branch " <> a.branch)
          (surface_body a.branch (ahead_of facts a.branch)) in
      elim opened [
        | got number ↦ (
          (
            record p { surface = p.surface ++ record a { pr_number = some number } ∷ [] },
            count_surfaced n,
          ),
          labelled w1 number a.draft_pr_label,
        )
        | lost e ↦ ((record p { skipped = p.skipped ++ withheld_branch a.branch ∷ [] }, n), w1)
      ]

  unfoldable pub surface_each :
      W
      → String
      → List BranchFacts
      → List SurfaceAction
      → (GardenPlan × ExecutionCounts)
      → (GardenPlan × ExecutionCounts) × W
  unfolding surface_one
  surface_each w default_branch facts [] done = (done, w)
  surface_each w default_branch facts (a ∷ actions) done =
      let (more, w1) = surface_one w default_branch facts a done in
      surface_each w1 default_branch facts actions more

  -- The tokens are minted only for work that there is.
  unfoldable pub prune_phase :
      W → List BranchFacts → List PruneAction → Option (Reply ExecutionCounts × W)
  unfolding prune_each
  prune_phase w facts actions =
      let (minted, w1) = hub.mint w TokenRole.agent_git in
      let pruned = prune_each w1 facts actions no_counts in
      if is_empty actions then some (got no_counts, w) else elim minted [
        | lost e ↦ some (lost e, w1)
        | got token ↦ Option.map (λ (r : ExecutionCounts × W). (got r.0, r.1)) pruned
      ]

  unfoldable pub surface_phase :
      W
      → String
      → List BranchFacts
      → GardenPlan
      → ExecutionCounts
      → Reply (GardenPlan × ExecutionCounts) × W
  unfolding surface_each
  surface_phase w default_branch facts p n =
      let (minted, w1) = hub.mint w TokenRole.publication in
      let (done, w2) =
        surface_each w1 default_branch facts p.surface (record p { surface = [] }, n) in
      if is_empty p.surface
      then (got (p, n), w)
      else elim minted [ lost e ↦ (lost e, w1) | got token ↦ (got done, w2) ]

  abbrev pub surfaced :
      String
      → List BranchFacts
      → GardenPlan
      → (Reply ExecutionCounts × W)
      → Reply (GardenPlan × ExecutionCounts) × W
  surfaced default_branch facts p (lost e, w) = (lost e, w)
  surfaced default_branch facts p (got n, w) = surface_phase w default_branch facts p n

  -- `none` where the code panics.
  unfoldable pub execute_garden_plan :
      W → String → List BranchFacts → GardenPlan → Option (Reply (GardenPlan × ExecutionCounts) × W)
  unfolding prune_phase surface_phase
  execute_garden_plan w default_branch facts p =
      Option.map (surfaced default_branch facts p) (prune_phase w facts p.prune)
