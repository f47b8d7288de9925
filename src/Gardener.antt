-- ===== src/Gardener.antt =====
-- The branch gardener (crates/gardener/src/scan.rs): the classification of branches and the plan.
pub mod Pruning
pub mod Complete
pub mod Schedule
pub mod Report
use mathlib.Core.Option as Option
use coven_github.Store.Schema.{is_none}
use coven_github.Base.{
  ℕ, Bool, List, Option, String, [], any, ends_with, every, if◌then◌else◌, is_empty, lacks, nat_Eq,
  none, not, some, starts_with, strip_suffix, text_Eq, true, ◌&&◌, ◌==◌, ◌||◌, ◌∷◌,
}

pub record BranchFacts : Type 0 where
  pub name : String
  pub sha : String
  pub is_protected : Bool
  pub ahead : ℕ
  pub behind : ℕ
  pub ahead_author_logins : List String
  pub authors_truncated : Bool
  pub open_pr : Option ℕ
  pub merged_pr : Option ℕ

pub data BranchClass : Type 0 where
  excluded : BranchClass
  merged : BranchClass
  dead : BranchClass
  active : BranchClass
  prless : BranchClass

pub data Autonomy : Type 0 where
  propose : Autonomy
  prune_dead : Autonomy

pub record GardenerPolicy : Type 0 where
  pub autonomy : Autonomy
  pub default_branch : String
  pub exclude : List String
  pub draft_pr_label : Option String

pub data PruneReason : Type 0 where
  dead : PruneReason
  merged : ℕ → PruneReason

pub record PruneAction : Type 0 where
  pub branch : String
  pub sha : String
  pub reason : PruneReason

pub record SurfaceAction : Type 0 where
  pub branch : String
  pub sha : String
  pub draft_pr_label : Option String
  pub pr_number : Option ℕ

pub data SkipCode : Type 0 where
  excluded : SkipCode
  bot_only_prless : SkipCode
  withheld : SkipCode

pub record SkipReason : Type 0 where
  pub branch : String
  pub reason : SkipCode

pub record GardenPlan : Type 0 where
  pub prune : List PruneAction
  pub would_prune : List PruneAction
  pub surface : List SurfaceAction
  pub active : List String
  pub skipped : List SkipReason

abbrev pub no_actions : GardenPlan
no_actions = record { prune = []; would_prune = []; surface = []; active = []; skipped = [] }

-- A trailing `*` with no other `*` before it matches the prefix.
unfoldable pub matches_exclude_pattern : String → String → Bool
matches_exclude_pattern name pattern =
    if pattern == "*" then true else elim (strip_suffix b'*' pattern) [
      | none ↦ name == pattern
      | some prefix ↦ if lacks b'*' prefix then starts_with prefix name else name == pattern
    ]

unfoldable pub matches_exclude : String → List String → Bool
unfolding matches_exclude_pattern
matches_exclude name patterns = any (λ (p : String). matches_exclude_pattern name p) patterns

unfoldable pub classify : BranchFacts → GardenerPolicy → BranchClass
unfolding matches_exclude
classify f policy =
    if f.name == policy.default_branch || f.is_protected || matches_exclude f.name policy.exclude
    then BranchClass.excluded
    else if not (is_none f.open_pr)
    then BranchClass.active
    else if not (is_none f.merged_pr) && f.ahead == 0
    then BranchClass.merged
    else if f.ahead == 0
    then BranchClass.dead
    else BranchClass.prless

-- The reason, where the class is one that is pruned and its number is there to be unwrapped.
abbrev pub prune_reason : BranchClass → Option ℕ → Option PruneReason
prune_reason BranchClass.merged none = none
prune_reason BranchClass.merged (some pr) = some (PruneReason.merged pr)
prune_reason BranchClass.dead merged_pr = some PruneReason.dead
prune_reason _ merged_pr = none

abbrev pub action_of : BranchFacts → PruneReason → PruneAction
action_of f reason = record { branch = f.name; sha = f.sha; reason = reason }

-- `none` where the code panics: an assertion that fails, the `expect` or the `unreachable!`.
unfoldable pub prune_action : BranchFacts → BranchClass → Option PruneAction
prune_action f class =
    if f.ahead == 0 then Option.map (action_of f) (prune_reason class f.merged_pr) else none

abbrev pub skip : BranchFacts → SkipCode → SkipReason
skip f reason = record { branch = f.name; reason = reason }

unfoldable pub is_proven_bot_only : BranchFacts → Bool
is_proven_bot_only f =
    not f.authors_truncated
    && not (is_empty f.ahead_author_logins)
    && every (λ (login : String). ends_with "[bot]" login) f.ahead_author_logins

abbrev pub push_prune : Autonomy → PruneAction → GardenPlan → GardenPlan
push_prune Autonomy.propose action p = record p { would_prune = action ∷ p.would_prune }
push_prune Autonomy.prune_dead action p = record p { prune = action ∷ p.prune }

abbrev pub surface_of_branch : BranchFacts → GardenerPolicy → SurfaceAction
surface_of_branch f policy = record {
  branch = f.name;
  sha = f.sha;
  draft_pr_label = policy.draft_pr_label;
  pr_number = none;
}

abbrev pub pruned_to : Autonomy → GardenPlan → Option PruneAction → Option GardenPlan
pruned_to autonomy p action = Option.map (λ (a : PruneAction). push_prune autonomy a p) action

-- One round of the loop, on a branch that comes before those already planned.
unfoldable pub place : GardenerPolicy → BranchFacts → BranchClass → GardenPlan → Option GardenPlan
unfolding prune_action is_proven_bot_only
place policy f BranchClass.excluded p =
    some (record p { skipped = skip f SkipCode.excluded ∷ p.skipped })
place policy f BranchClass.merged p =
    pruned_to policy.autonomy p (prune_action f BranchClass.merged)
place policy f BranchClass.dead p = pruned_to policy.autonomy p (prune_action f BranchClass.dead)
place policy f BranchClass.active p = some (record p { active = f.name ∷ p.active })
place policy f BranchClass.prless p =
    if is_proven_bot_only f
    then some (record p { skipped = skip f SkipCode.bot_only_prless ∷ p.skipped })
    else some (record p { surface = surface_of_branch f policy ∷ p.surface })

-- `none` where the code panics.
unfoldable pub plan : List BranchFacts → GardenerPolicy → Option GardenPlan
unfolding classify place
plan [] policy = some no_actions
plan (f ∷ facts) policy = elim (plan facts policy) [
  | none ↦ none
  | some p ↦ place policy f (classify f policy) p
]
