-- ===== src/Worker/GardenRun.antt =====
-- A gardener run from its policy to its report: `execute_garden_run` of
-- crates/worker/src/gardener_exec.rs. `token` is the orchestration token.
pub mod Guarded
use coven_github.Worker.Redact.{redact}
use coven_github.Gardener.Report.{ExecutionCounts, comment_body, summary_line}
use coven_github.Worker.Garden.{scan_garden_branches, execute_garden_plan}
use coven_github.Store.Queue.{finish}
use coven_github.GitHub.{Task}
use coven_github.Config.Gardener.{gardener_policy, ResolvedGardenerPolicy}
use coven_github.Worker.Hub.{marker, upsert, Hub, Reply, got, lost}
use coven_github.Store.Schema.{TerminalState, Terminal, Db}
use coven_github.Config.{FamiliarConfig, Config}
use mathlib.Core.Option as Option
use coven_github.Gardener.{plan, GardenPlan, GardenerPolicy, BranchFacts}
use coven_github.Base.{ℕ, List, Option, String, [], if◌then◌else◌, none, not, some, ◌<>◌, ◌∷◌}

abbrev pub garden_terminal : TerminalState → String → Option String → Terminal
garden_terminal state summary detail = record {
  state = state;
  result_status = none;
  branch = none;
  pr_number = none;
  summary = some summary;
  detail = detail;
}

abbrev pub disabled_body : String
disabled_body =
    "Status: done\n\nBranch Gardener is not enabled for this repository. Enable the `gardener` policy in coven-github config for this repo before running it."

abbrev pub garden_policy_of : ResolvedGardenerPolicy → String → GardenerPolicy
garden_policy_of resolved default_branch = record {
  autonomy = resolved.autonomy;
  default_branch = default_branch;
  exclude = resolved.exclude;
  draft_pr_label = resolved.draft_pr_label;
}

module _ {W : Type 0} (hub : Hub W) (token : String) (familiar : FamiliarConfig) (t : Task) where
  -- A comment that fails is logged only.
  unfoldable pub report_to : W → Option ℕ → String → W
  unfolding upsert marker
  report_to w none body = w
  report_to w (some n) body =
      (upsert hub w n (marker familiar.id t.repo_owner t.repo_name n) body).1

  unfoldable pub finish_failed_garden_run : ℕ → Db → W → Option ℕ → String → String → Db × W
  unfolding finish redact report_to
  finish_failed_garden_run now db w report_issue summary error = (
    finish now db t.id
        (garden_terminal TerminalState.failed summary (some (redact error (token ∷ [])))),
    report_to w report_issue
        (redact ("Status: failed\n\nBranch Gardener run failed: " <> summary <> ".") (token ∷ [])),
  )

  -- The end of a run whose plan was executed, or failed.
  abbrev pub reported :
      ℕ
      → Db
      → Option ℕ
      → ResolvedGardenerPolicy
      → (Reply (GardenPlan × ExecutionCounts) × W)
      → Db × W
  reported now db report_issue resolved (lost e, w) =
      finish_failed_garden_run now db w report_issue "gardener execution failed" e
  reported now db report_issue resolved (got (q, n), w) = (
    finish now db t.id (garden_terminal TerminalState.completed (summary_line q n) none),
    report_to w report_issue
        (comment_body q n (t.repo_owner <> "/" <> t.repo_name) resolved.autonomy),
  )

  -- After the scan: the plan, its execution and the report; none where the code panics.
  unfoldable pub garden_scanned :
      ℕ → Db → W → Option ℕ → ResolvedGardenerPolicy → String → List BranchFacts → Option (Db × W)
  unfolding plan execute_garden_plan summary_line comment_body finish_failed_garden_run
  garden_scanned now db w report_issue resolved default_branch facts =
      elim (plan facts (garden_policy_of resolved default_branch)) [
        | none ↦ none
        | some p ↦
            Option.map (reported now db report_issue resolved)
              (execute_garden_plan hub w default_branch facts p)
      ]

  unfoldable pub execute_garden_run : ℕ → Config → Db → W → Option ℕ → Option (Db × W)
  unfolding gardener_policy scan_garden_branches garden_scanned
  execute_garden_run now cfg db w report_issue =
      let resolved = gardener_policy cfg.gardener (t.repo_owner <> "/" <> t.repo_name) in
      let (scanned, w1) = scan_garden_branches hub w resolved in
      if not resolved.enabled
      then some (
        finish now db t.id (garden_terminal TerminalState.completed "gardener disabled" none),
        report_to w report_issue disabled_body,
      )
      else elim scanned [
        | lost e ↦ some (finish_failed_garden_run now db w1 report_issue "gardener scan failed" e)
        | got (default_branch, facts) ↦
            garden_scanned now db w1 report_issue resolved default_branch facts
      ]
