-- ===== src/Gardener/Complete.antt =====
-- A plan is always made, and has every branch once (crates/gardener/src/scan.rs).
use coven_github.Base.{
  ℕ, Bool, Bool-cases, List, Option, Option-cases, [], arith, false, inl, inr, nat_Eq, refl, some,
  text_Eq, true, ◌+◌, ◌==◌, ◌||◌, ◌∷◌, ◌≡◌, String, count_where,
}
use coven_github.Gardener.{
  GardenPlan, Autonomy, BranchClass, BranchFacts, GardenerPolicy, PruneAction, PruneReason,
  action_of, classify, is_proven_bot_only, matches_exclude, no_actions, place, plan, prune_action,
  pruned_to, SkipReason, SurfaceAction,
}
use coven_github.Gardener.Pruning.{classify-Bare, is_prunable}

-- How many entries a plan has under a name, in all its lists.
unfoldable pub entries : String → GardenPlan → ℕ
unfolding count_where
entries name p =
    count_where (λ (a : PruneAction). a.branch == name) p.prune
    + count_where (λ (a : PruneAction). a.branch == name) p.would_prune
    + count_where (λ (a : SurfaceAction). a.branch == name) p.surface
    + count_where (λ (branch : String). branch == name) p.active
    + count_where (λ (r : SkipReason). r.branch == name) p.skipped

abbrev pub branches : String → List BranchFacts → ℕ
branches name facts = count_where (λ (f : BranchFacts). f.name == name) facts

abbrev is_merged : BranchClass → Bool
is_merged BranchClass.merged = true
is_merged _ = false

-- A branch of the class `merged` has the number that `prune_action` unwraps.
classify-merged :
    (f : BranchFacts) (policy : GardenerPolicy)
    → is_merged (classify f policy) ≡ true
    → (n : ℕ) × (f.merged_pr ≡ some n)
unfolding classify
classify-merged f policy e = elim (Option-cases f.merged_pr) [
  | inr found ↦ found
  | inl m ↦
      elim (Bool-cases (
        f.name == policy.default_branch
        || f.is_protected
        || matches_exclude f.name policy.exclude)) [
          | inl q ↦ cc (rw (q, classify) at e)
          | inr q ↦ elim (Option-cases f.open_pr) [
            | inr (n, o) ↦ cc (rw (q, o, classify) at e)
            | inl o ↦ elim (Bool-cases (f.ahead == 0)) [
              | inl z ↦ cc (rw (q, o, m, z, classify) at e)
              | inr z ↦ cc (rw (q, o, m, z, classify) at e)
            ]
          ]
        ]
]

-- A round that succeeds adds one entry, under the branch's name.
abbrev Adds : BranchFacts → Option GardenPlan → GardenPlan → Type 0
Adds f o p =
    (after : GardenPlan) × (o ≡ some after)
    × ((name : String) → entries name after ≡ branches name (f ∷ []) + entries name p)

pruned_to-Adds :
    (autonomy : Autonomy) (f : BranchFacts) (p : GardenPlan) (o : Option PruneAction)
    (reason : PruneReason)
    → o ≡ some (action_of f reason)
    → Adds f (pruned_to autonomy p o) p
unfolding entries count_where
pruned_to-Adds Autonomy.propose f p o reason e = rw e (_, refl, λ name. ground arith)
pruned_to-Adds Autonomy.prune_dead f p o reason e = rw e (_, refl, λ name. ground arith)

place-Adds :
    (policy : GardenerPolicy) (f : BranchFacts) (class : BranchClass) (p : GardenPlan)
    → (is_prunable class ≡ true → f.ahead ≡ 0)
    → (is_merged class ≡ true → (n : ℕ) × (f.merged_pr ≡ some n))
    → Adds f (place policy f class p) p
unfolding place entries prune_action count_where
place-Adds policy f BranchClass.excluded p bare number = (_, refl, λ name. ground arith)
place-Adds policy f BranchClass.merged p bare number =
    let (n, m) = number refl in
    pruned_to-Adds policy.autonomy f p (prune_action f BranchClass.merged) (PruneReason.merged n)
      (rw (bare refl, m) refl)
place-Adds policy f BranchClass.dead p bare number =
    pruned_to-Adds policy.autonomy f p (prune_action f BranchClass.dead) PruneReason.dead
      (rw (bare refl) refl)
place-Adds policy f BranchClass.active p bare number = (_, refl, λ name. ground arith)
place-Adds policy f BranchClass.prless p bare number = elim (Bool-cases (is_proven_bot_only f)) [
  | inl q ↦ rw q (_, refl, λ name. ground arith)
  | inr q ↦ rw q (_, refl, λ name. ground arith)
]

-- A plan is made for any branches, so that no assertion, `expect` or `unreachable!` of the code
-- fires; and under every name it has as many entries as there are branches of that name.
pub plan_total :
    (facts : List BranchFacts) (policy : GardenerPolicy)
    → (p : GardenPlan) × (plan facts policy ≡ some p)
      × ((name : String) → entries name p ≡ branches name facts)
unfolding plan entries count_where
plan_total [] policy = (no_actions, refl, λ name. refl)
plan_total (f ∷ facts) policy =
    let (rest, made, count) = plan_total facts policy in
    let (after, placed, more) =
      place-Adds policy f (classify f policy) rest (λ q. (classify-Bare f policy q).no_commits)
        (classify-merged f policy) in
    (after, rw made placed, λ name. ground (arith, more name, count name))
