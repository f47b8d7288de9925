-- ===== src/Gardener/Pruning.antt =====
-- Which branches the gardener prunes (crates/gardener/src/scan.rs).
use mathlib.Core.Option.{some-injective}
use mathlib.Core.Path.{subst}
use coven_github.Base.{
  All, All_mem, Bool, Bool-cases, List, Memᴰ, Option, Option-cases, [], arith, eq_of_==, false, inl,
  inr, nat_Eq, none, refl, some, text_Eq, true, ◌==◌, ◌||◌, ◌∷◌, ◌≡◌,
}
use coven_github.Gardener.{
  GardenPlan, Autonomy, BranchClass, BranchFacts, GardenerPolicy, PruneAction, classify,
  is_proven_bot_only, matches_exclude, place, plan, prune_action, prune_reason, pruned_to,
}

-- A branch that may be pruned: not the default branch, not protected, not excluded, with no open
-- pull request and no commit of its own.
pub record Bare (policy : GardenerPolicy) (f : BranchFacts) : Type 0 where
  pub not_default : (f.name == policy.default_branch) ≡ false
  pub unprotected : f.is_protected ≡ false
  pub not_excluded : matches_exclude f.name policy.exclude ≡ false
  pub no_pr : f.open_pr ≡ none
  pub no_commits : f.ahead ≡ 0

abbrev pub is_prunable : BranchClass → Bool
is_prunable BranchClass.merged = true
is_prunable BranchClass.dead = true
is_prunable _ = false

or-eq-false : (a b c : Bool) → (a || b || c) ≡ false → (a ≡ false) × (b ≡ false) × (c ≡ false)
or-eq-false a b c h = (ground (arith, h), ground (arith, h), ground (arith, h))

pub classify-Bare :
    (f : BranchFacts) (policy : GardenerPolicy)
    → is_prunable (classify f policy) ≡ true
    → Bare policy f
unfolding classify
classify-Bare f policy e =
    elim (Bool-cases (
      f.name == policy.default_branch || f.is_protected || matches_exclude f.name policy.exclude)) [
        | inl q ↦ cc (rw (q, classify) at e)
        | inr q ↦ elim (Option-cases f.open_pr) [
          | inr (n, o) ↦ cc (rw (q, o, classify) at e)
          | inl o ↦ elim (Bool-cases (f.ahead == 0)) [
            | inl z ↦
                let (a, b, c) = or-eq-false _ _ _ q in
                record {
                  not_default = a;
                  unprotected = b;
                  not_excluded = c;
                  no_pr = o;
                  no_commits = eq_of_== _ _ z;
                }
            | inr z ↦ elim (Option-cases f.merged_pr) [
              | inl m ↦ cc (rw (q, o, z, m, classify) at e)
              | inr (n, m) ↦ cc (rw (q, o, z, m, classify) at e)
            ]
          ]
        ]
      ]

-- A pruning of a branch of the table, under a policy that prunes.
pub record Prunable (table : List BranchFacts) (policy : GardenerPolicy) (a : PruneAction)
    : Type 0 where
  pub facts : BranchFacts
  pub stored : Memᴰ facts table
  pub branch : a.branch ≡ facts.name
  pub sha : a.sha ≡ facts.sha
  pub bare : Bare policy facts
  pub autonomy : policy.autonomy ≡ Autonomy.prune_dead

module _ (P : PruneAction → Type 0) where
  pruned_to_lem :
      (autonomy : Autonomy) (p : GardenPlan) (o : Option PruneAction) (after : GardenPlan)
      → ((a : PruneAction) → o ≡ some a → autonomy ≡ Autonomy.prune_dead → P a)
      → pruned_to autonomy p o ≡ some after
      → All P p.prune
      → All P after.prune
  pruned_to_lem autonomy p none after h e k = cc
  pruned_to_lem Autonomy.propose p (some a) after h e k =
      subst (λ (q : GardenPlan). All P q.prune) (some-injective _ _ e) k
  pruned_to_lem Autonomy.prune_dead p (some a) after h e k =
      subst (λ (q : GardenPlan). All P q.prune) (some-injective _ _ e) (h a refl refl, k)

module _ (policy : GardenerPolicy) (table : List BranchFacts) where
  Prunable-prune_action :
      (f : BranchFacts) (class : BranchClass)
      → Memᴰ f table
      → Bare policy f
      → (a : PruneAction) → prune_action f class ≡ some a
      → policy.autonomy ≡ Autonomy.prune_dead
      → Prunable table policy a
  unfolding prune_action
  Prunable-prune_action f class m bare a e auto =
      elim (Option-cases (prune_reason class f.merged_pr)) [
        | inl r ↦ cc (rw (prune_action, bare.no_commits, r) at e)
        | inr (reason, r) ↦
            subst (Prunable table policy)
              (some-injective _ _ (rw (prune_action, bare.no_commits, r) at e))
              (record {
                facts = f;
                stored = m;
                branch = refl;
                sha = refl;
                bare = bare;
                autonomy = auto;
              })
      ]

  Prunable-place :
      (f : BranchFacts) (class : BranchClass) (p after : GardenPlan)
      → Memᴰ f table
      → (is_prunable class ≡ true → Bare policy f)
      → place policy f class p ≡ some after
      → All (Prunable table policy) p.prune
      → All (Prunable table policy) after.prune
  unfolding place
  Prunable-place f BranchClass.excluded p after m b e k =
      subst (λ (q : GardenPlan). All (Prunable table policy) q.prune) (some-injective _ _ e) k
  Prunable-place f BranchClass.merged p after m b e k =
      pruned_to_lem (Prunable table policy) policy.autonomy p (prune_action f BranchClass.merged)
        after (Prunable-prune_action f BranchClass.merged m (b refl)) e k
  Prunable-place f BranchClass.dead p after m b e k =
      pruned_to_lem (Prunable table policy) policy.autonomy p (prune_action f BranchClass.dead)
        after (Prunable-prune_action f BranchClass.dead m (b refl)) e k
  Prunable-place f BranchClass.active p after m b e k =
      subst (λ (q : GardenPlan). All (Prunable table policy) q.prune) (some-injective _ _ e) k
  Prunable-place f BranchClass.prless p after m b e k = elim (Bool-cases (is_proven_bot_only f)) [
    | inl q ↦
        subst (λ (q : GardenPlan). All (Prunable table policy) q.prune)
          (some-injective _ _ (rw q at e)) k
    | inr q ↦
        subst (λ (q : GardenPlan). All (Prunable table policy) q.prune)
          (some-injective _ _ (rw q at e)) k
  ]

  Prunable-plan :
      (facts : List BranchFacts) (p : GardenPlan)
      → All (λ f. Memᴰ f table) facts
      → plan facts policy ≡ some p
      → All (Prunable table policy) p.prune
  unfolding plan
  Prunable-plan [] p m e =
      subst (λ (q : GardenPlan). All (Prunable table policy) q.prune) (some-injective _ _ e) tt
  Prunable-plan (f ∷ facts) p m e = elim (Option-cases (plan facts policy)) [
    | inl q ↦ cc (rw (plan, q) at e)
    | inr (rest, q) ↦
        Prunable-place f (classify f policy) rest p m.0 (classify-Bare f policy) (rw (plan, q) at e)
          (Prunable-plan facts rest m.1 q)
  ]

-- Every branch that a plan prunes is one that was scanned, at the commit that was scanned, under a
-- policy that prunes; it is neither the default branch nor protected nor excluded, and it has no
-- open pull request and no commit of its own.
pub plan-Prunable :
    (facts : List BranchFacts) (policy : GardenerPolicy) (p : GardenPlan)
    → plan facts policy ≡ some p
    → All (Prunable facts policy) p.prune
plan-Prunable facts policy p e = Prunable-plan policy facts facts p (All_mem facts) e
