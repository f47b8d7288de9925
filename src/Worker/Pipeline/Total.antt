-- ===== src/Worker/Pipeline/Total.antt =====
-- A run past its Check Run comes to an end (crates/worker/src/lib.rs, crates/worker/src/brief.rs).
use coven_github.Worker.Pipeline.Execute.{run_checked, check_run_url, clean_up}
use coven_github.Worker.Pipeline.Publish.{Machine, run_and_publish, review_context, write_brief}
use coven_github.Worker.Pipeline.Governance.{memory_policy_for}
use coven_github.Worker.Pipeline.Settled.{conclude-Settled, Ended, IsCompleted}
use coven_github.Worker.Brief.{build, trigger_of, task_brief, ReviewContext}
use coven_github.Worker.GardenRun.Guarded.{Reply-cases}
use coven_github.Worker.Memory.{MemoryPolicy}
use coven_github.Worker.Surface.{ResolvedTargets}
use coven_github.Worker.Hub.{Hub}
use coven_github.GitHub.{
  garden_run, cancel_reviews, address_review_comment, command_reply, fix_issue, review_pull_request,
  respond_to_mention, TaskKind, Task,
}
use coven_github.Config.{FamiliarConfig, Config}
use coven_github.Config.Memory.{MemoryConfig}
use coven_github.Store.Queue.{set_check_run_url}
use coven_github.Store.Schema.{Db}
use coven_github.Base.{
  ℕ, String, Option, Option-cases, All, Bool, inl, inr, none, refl, some, ◌≡◌, ◌≢◌,
}

-- A value that is there.
abbrev Found {ℓ} : {A : Type ℓ} → Option A → Type ℓ
Found {A = A} o = (a : A) × (o ≡ some a)

task_brief-Found : (kind : TaskKind) → trigger_of kind ≢ none → Found (task_brief kind)
unfolding trigger_of task_brief
task_brief-Found (fix_issue n title body) h = (_, refl)
task_brief-Found (address_review_comment n body hunk) h = (_, refl)
task_brief-Found (respond_to_mention n body) h = (_, refl)
task_brief-Found (review_pull_request n title reason) h = (_, refl)
task_brief-Found (command_reply n body) h = (_, refl)
task_brief-Found (cancel_reviews n) h = (_, refl)
task_brief-Found (garden_run report_issue) h = absurd (h refl)

build-Found :
    (t : Task) (familiar : FamiliarConfig) (workspace branch : String)
    (review : Option ReviewContext) (policy : Option MemoryPolicy)
    → trigger_of t.kind ≢ none
    → Found (build t familiar workspace branch review policy)
unfolding build
build-Found t familiar workspace branch review policy h =
    let (brief, b) = task_brief-Found t.kind h in
    elim (Option-cases (trigger_of t.kind)) [
      | inl e ↦ absurd (h e)
      | inr (trigger, e) ↦ rw (e, b, build) (_, refl)
    ]

module _ {W : Type 0} (hub : Hub W) (now : ℕ) (cfg : Config) (memory : MemoryConfig)
    (cave : Option String) (machine : Machine) (workspace : String) (leftover : Bool) (t : Task)
    (familiar : FamiliarConfig) (token : String) (targets : ResolvedTargets) where
  run_and_publish-Found :
      (db : Db) (w : W) (check_id : ℕ)
      → trigger_of t.kind ≢ none
      → Found (
          run_and_publish hub now cfg memory cave machine workspace familiar t token targets db w
            check_id)
  unfolding run_and_publish
  run_and_publish-Found db w check_id h = elim (Option-cases machine.create_dir_all) [
    | inr (e, q) ↦ rw (q, run_and_publish) (_, refl)
    | inl q ↦
        elim (Reply-cases
          (review_context hub now cfg memory cave machine workspace familiar t token targets w
            t.kind).0) [
              | inr (e, r) ↦ rw (q, r, run_and_publish) (_, refl)
              | inl (review, r) ↦
                  let (brief, b) =
                    build-Found t familiar workspace targets.default_branch review
                      (memory_policy_for memory db t targets.head_is_fork) h in
                  elim (Option-cases (
                    write_brief hub now cfg memory cave machine workspace familiar t token targets
                      brief)) [
                        | inr (e, x) ↦ rw (q, r, b, x, run_and_publish) (_, refl)
                        | inl x ↦ rw (q, r, b, x, run_and_publish) (_, refl)
                      ]
            ]
  ]

  -- A run of any task but the gardener's, once its Check Run is created, comes to an end: its last
  -- call completes that Check Run and its task's row is in a terminal state. This is so whatever the
  -- disk, the session and GitHub answer.
  pub run_checked-Settled :
      (db : Db) (w : W) (check_id : ℕ)
      → trigger_of t.kind ≢ none
      → (after : Db × W) × (run_checked hub now cfg memory cave machine workspace leftover t
            familiar db w token targets check_id
          ≡ some after)
        × All (Ended t.id) after.0.tasks
        × IsCompleted hub check_id after.1
  unfolding run_checked
  run_checked-Settled db w check_id h =
      let db1 = set_check_run_url now db t.id (check_run_url t check_id) in
      let ((outcome, db2, w1), e) = run_and_publish-Found db1 w check_id h in
      let (ended, completed) =
        conclude-Settled hub now cfg cave familiar t (clean_up now db2 t leftover) w1 check_id token
          outcome in
      rw (e, run_checked) (_, refl, ended, completed)
