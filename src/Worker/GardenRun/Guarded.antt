-- ===== src/Worker/GardenRun/Guarded.antt =====
-- What a gardener run may do to GitHub (crates/worker/src/gardener_exec.rs).
use coven_github.Gardener.Complete.{plan_total}
use coven_github.Config.Gardener.{ResolvedGardenerPolicy}
use coven_github.Gardener.Pruning.{plan-Prunable, Prunable}
use coven_github.Store.Schema.{Db}
use coven_github.Worker.GardenRun.{
  report_to, finish_failed_garden_run, garden_policy_of, garden_scanned, reported,
}
use coven_github.Worker.Garden.{
  ahead_of, surface_body, surface_phase, surface_one, surface_each, prune_phase, prune_one,
  prune_each, labelled, execute_garden_plan, source_of, surfaced,
}
use coven_github.GitHub.{Task}
use coven_github.Worker.Hub.{lost, upsert, got, TokenRole, Reply, IssueComment, Hub}
use coven_github.Config.{FamiliarConfig}
use coven_github.Gardener.Report.{no_counts, ExecutionCounts}
use coven_github.Gardener.{SurfaceAction, PruneAction, GardenPlan, BranchFacts, GardenerPolicy}
use coven_github.Base.{
  ℕ, All, Bool-cases, List, Option, Option-cases, String, [], ap, contains_text, eq_of_==, find,
  inl, inr, is_empty, nat_Eq, none, refl, some, text_Eq, ◌<>◌, ◌==◌, ◌∙◌, ◌∷◌, ◌≡◌, ◌⊎◌, All-map,
  Memᴰ, ne_of_==, sym,
}

-- Every call that a run makes after its scan keeps `Inv`; a deletion does only where it is allowed,
-- right after the branch has been read at the commit that was scanned.
pub record Keeps {W : Type 0} (hub : Hub W) (Inv : W → Type 0) (Allowed : PruneAction → Type 0)
    : Type 0 where
  pub mint : (w : W) (role : TokenRole) → Inv w → Inv (hub.mint w role).1
  pub read : (w : W) (branch : String) → Inv w → Inv (hub.get_branch_sha w branch).1
  pub delete :
      (w : W) (a : PruneAction)
      → Allowed a
      → Inv w
      → (hub.get_branch_sha w a.branch).0 ≡ got a.sha
      → Inv (hub.delete_ref (hub.get_branch_sha w a.branch).1 a.branch).1
  pub surface :
      (w : W) (head base title body : String)
      → Inv w
      → Inv (hub.open_pull_request w head base title body).1
  pub label : (w : W) (n : ℕ) (label : String) → Inv w → Inv (hub.add_labels_to_issue w n label).1
  pub list : (w : W) (n : ℕ) → Inv w → Inv (hub.list_comments w n).1
  pub update : (w : W) (n : ℕ) (body : String) → Inv w → Inv (hub.update_comment w n body).1
  pub post : (w : W) (n : ℕ) (body : String) → Inv w → Inv (hub.post_comment w n body).1

pub Reply-cases :
    {A : Type 0} (r : Reply A) → ((a : A) × (r ≡ got a)) ⊎ ((e : String) × (r ≡ lost e))
Reply-cases (got a) = inl (a, refl)
Reply-cases (lost e) = inr (e, refl)

-- A value that is there, with a property.
abbrev Ends : {A : Type 0} → (A → Type 0) → Option A → Type 0
Ends {A = A} P o = (a : A) × (o ≡ some a) × P a

-- The branch of the pruning was scanned, so that the code finds its facts.
abbrev Sourced : List BranchFacts → PruneAction → Type 0
Sourced facts a = (f : BranchFacts) × (source_of facts a ≡ some f)

source_of-Sourced :
    (f : BranchFacts) (facts : List BranchFacts) (a : PruneAction)
    → Memᴰ f facts
    → a.branch ≡ f.name
    → Sourced facts a
source_of-Sourced f [] a m e = elim m [ ]
source_of-Sourced f (g ∷ facts) a m e = elim (Bool-cases (g.name == a.branch)) [
  | inl same ↦ rw same (g, refl)
  | inr other ↦ rw other (elim m [
    | Memᴰ.head q ↦
        absurd (ne_of_== g.name a.branch other (ap (λ (x : BranchFacts). x.name) (sym q) ∙ sym e))
    | Memᴰ.tail n ↦ source_of-Sourced f facts a n e
  ])
]

Sourced-Prunable :
    (facts : List BranchFacts) (policy : GardenerPolicy) (actions : List PruneAction)
    → All (Prunable facts policy) actions
    → All (Sourced facts) actions
Sourced-Prunable facts policy actions h =
    All-map actions (λ a p. source_of-Sourced p.facts facts a p.stored p.branch) h

module _ {W : Type 0} (hub : Hub W) (Inv : W → Type 0) (Allowed : PruneAction → Type 0)
    (keeps : Keeps hub Inv Allowed) where
  prune_one-Inv :
      (w : W) (a : PruneAction) (n : ExecutionCounts)
      → Allowed a
      → Inv w
      → Inv (prune_one hub w a n).1
  unfolding prune_one
  prune_one-Inv w a n allowed h =
      let read = keeps.read w a.branch h in
      elim (Reply-cases (hub.get_branch_sha w a.branch).0) [
        | inr (e, q) ↦ rw (q, prune_one) read
        | inl (sha, q) ↦ elim (Bool-cases (sha == a.sha)) [
          | inr other ↦ rw (q, other, prune_one) read
          | inl same ↦
              let deleted = keeps.delete w a allowed h (q ∙ ap got (eq_of_== sha a.sha same)) in
              elim (Reply-cases (hub.delete_ref (hub.get_branch_sha w a.branch).1 a.branch).0) [
                | inl (done, d) ↦ rw (q, same, d, prune_one) deleted
                | inr (e, d) ↦ rw (q, same, d, prune_one) deleted
              ]
        ]
      ]

  prune_each-Inv :
      (w : W) (facts : List BranchFacts) (actions : List PruneAction) (n : ExecutionCounts)
      → All Allowed actions
      → All (Sourced facts) actions
      → Inv w
      → Ends (λ r. Inv r.1) (prune_each hub w facts actions n)
  unfolding prune_each
  prune_each-Inv w facts [] n allowed sourced h = (_, refl, h)
  prune_each-Inv w facts (a ∷ actions) n allowed sourced h =
      rw (sourced.0.1, prune_each)
        (prune_each-Inv (prune_one hub w a n).1 facts actions (prune_one hub w a n).0 allowed.1
          sourced.1 (prune_one-Inv w a n allowed.0 h))

  labelled-Inv : (w : W) (n : ℕ) (label : Option String) → Inv w → Inv (labelled hub w n label)
  labelled-Inv w n none h = h
  labelled-Inv w n (some label) h = keeps.label w n label h

  surface_one-Inv :
      (w : W) (base : String) (facts : List BranchFacts) (a : SurfaceAction)
      (done : GardenPlan × ExecutionCounts)
      → Inv w
      → Inv (surface_one hub w base facts a done).1
  unfolding surface_one
  surface_one-Inv w base facts a done h =
      let title = "Surface branch " <> a.branch in
      let body = surface_body a.branch (ahead_of facts a.branch) in
      let after = keeps.surface w a.branch base title body h in
      elim (Reply-cases (hub.open_pull_request w a.branch base title body).0) [
        | inl (n, q) ↦ rw (q, surface_one) (labelled-Inv _ n a.draft_pr_label after)
        | inr (e, q) ↦ rw (q, surface_one) after
      ]

  surface_each-Inv :
      (w : W) (base : String) (facts : List BranchFacts) (actions : List SurfaceAction)
      (done : GardenPlan × ExecutionCounts)
      → Inv w
      → Inv (surface_each hub w base facts actions done).1
  unfolding surface_each
  surface_each-Inv w base facts [] done h = h
  surface_each-Inv w base facts (a ∷ actions) done h =
      surface_each-Inv (surface_one hub w base facts a done).1 base facts actions
        (surface_one hub w base facts a done).0 (surface_one-Inv w base facts a done h)

  prune_phase-Inv :
      (w : W) (facts : List BranchFacts) (actions : List PruneAction)
      → All Allowed actions
      → All (Sourced facts) actions
      → Inv w
      → Ends (λ r. Inv r.1) (prune_phase hub w facts actions)
  unfolding prune_phase
  prune_phase-Inv w facts actions allowed sourced h = elim (Bool-cases (is_empty actions)) [
    | inl e ↦ rw (e, prune_phase) (_, refl, h)
    | inr e ↦
        let minted = keeps.mint w TokenRole.agent_git h in
        elim (Reply-cases (hub.mint w TokenRole.agent_git).0) [
          | inr (f, q) ↦ rw (e, q, prune_phase) (_, refl, minted)
          | inl (token, q) ↦
              let (r, ended, kept) =
                prune_each-Inv _ facts actions no_counts allowed sourced minted in
              rw (e, q, ended, prune_phase) (_, refl, kept)
        ]
  ]

  surface_phase-Inv :
      (w : W) (base : String) (facts : List BranchFacts) (p : GardenPlan) (n : ExecutionCounts)
      → Inv w
      → Inv (surface_phase hub w base facts p n).1
  unfolding surface_phase
  surface_phase-Inv w base facts p n h = elim (Bool-cases (is_empty p.surface)) [
    | inl e ↦ rw (e, surface_phase) h
    | inr e ↦
        let minted = keeps.mint w TokenRole.publication h in
        elim (Reply-cases (hub.mint w TokenRole.publication).0) [
          | inr (f, q) ↦ rw (e, q, surface_phase) minted
          | inl (token, q) ↦
              rw (e, q, surface_phase) (surface_each-Inv _ base facts p.surface _ minted)
        ]
  ]

  surfaced-Inv :
      (base : String) (facts : List BranchFacts) (p : GardenPlan) (r : Reply ExecutionCounts × W)
      → Inv r.1
      → Inv (surfaced hub base facts p r).1
  surfaced-Inv base facts p (lost e, w) h = h
  surfaced-Inv base facts p (got n, w) h = surface_phase-Inv w base facts p n h

  execute_garden_plan-Inv :
      (w : W) (base : String) (facts : List BranchFacts) (p : GardenPlan)
      → All Allowed p.prune
      → All (Sourced facts) p.prune
      → Inv w
      → Ends (λ r. Inv r.1) (execute_garden_plan hub w base facts p)
  unfolding execute_garden_plan
  execute_garden_plan-Inv w base facts p allowed sourced h =
      let (r, ended, kept) = prune_phase-Inv w facts p.prune allowed sourced h in
      rw (ended, execute_garden_plan) (_, refl, surfaced-Inv base facts p r kept)

  upsert-Inv : (w : W) (n : ℕ) (mark body : String) → Inv w → Inv (upsert hub w n mark body).1
  unfolding upsert
  upsert-Inv w n mark body h =
      let listed = keeps.list w n h in
      elim (Reply-cases (hub.list_comments w n).0) [
        | inr (e, q) ↦ rw (q, upsert) listed
        | inl (comments, q) ↦
            elim (Option-cases (find (λ (c : IssueComment). contains_text mark c.body) comments)) [
              | inl f ↦ rw (q, f, upsert) (keeps.post _ n _ listed)
              | inr (c, f) ↦ rw (q, f, upsert) (keeps.update _ c.id _ listed)
            ]
      ]

  report_to-Inv :
      (token : String) (familiar : FamiliarConfig) (t : Task) (w : W) (n : Option ℕ) (body : String)
      → Inv w
      → Inv (report_to hub token familiar t w n body)
  unfolding report_to
  report_to-Inv token familiar t w none body h = h
  report_to-Inv token familiar t w (some n) body h = upsert-Inv w n _ body h

  reported-Inv :
      (token : String) (familiar : FamiliarConfig) (t : Task) (now : ℕ) (db : Db)
      (report_issue : Option ℕ) (resolved : ResolvedGardenerPolicy)
      (r : Reply (GardenPlan × ExecutionCounts) × W)
      → Inv r.1
      → Inv (reported hub token familiar t now db report_issue resolved r).1
  unfolding finish_failed_garden_run
  reported-Inv token familiar t now db report_issue resolved (lost e, w) h =
      report_to-Inv token familiar t w report_issue _ h
  reported-Inv token familiar t now db report_issue resolved (got (p, n), w) h =
      report_to-Inv token familiar t w report_issue _ h

-- What is left of a run once its branches have been scanned comes to an end without a panic, and
-- keeps every property of GitHub that its calls keep, where a deletion has to keep it only for a
-- branch that was scanned, under a policy that prunes, is neither the default branch nor protected
-- nor excluded, has no open pull request and no commit of its own, and was read right before at the
-- commit that was scanned.
pub garden_scanned-guarded :
    {W : Type 0} (hub : Hub W) (token : String) (familiar : FamiliarConfig) (t : Task) (now : ℕ)
    (db : Db) (w : W) (report_issue : Option ℕ) (resolved : ResolvedGardenerPolicy) (base : String)
    (facts : List BranchFacts) (Inv : W → Type 0)
    → Keeps hub Inv (Prunable facts (garden_policy_of resolved base))
    → Inv w
    → (after : Db × W) × (garden_scanned hub token familiar t now db w report_issue resolved base
          facts
        ≡ some after)
      × Inv after.1
unfolding garden_scanned
garden_scanned-guarded hub token familiar t now db w report_issue resolved base facts Inv keeps h =
    let policy = garden_policy_of resolved base in
    let (p, made, _) = plan_total facts policy in
    let prunable = plan-Prunable facts policy p made in
    let (r, ended, kept) =
      execute_garden_plan-Inv hub Inv (Prunable facts policy) keeps w base facts p prunable
        (Sourced-Prunable facts policy p.prune prunable) h in
    rw (made, ended, garden_scanned)
      (
        _,
        refl,
        reported-Inv hub Inv (Prunable facts policy) keeps token familiar t now db report_issue
            resolved r kept,
      )
