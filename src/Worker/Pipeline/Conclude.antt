-- ===== src/Worker/Pipeline/Conclude.antt =====
-- The publication of an outcome: the last match of `execute_task_with_minter` in
-- crates/worker/src/lib.rs. Whatever the outcome, the Check Run is completed.
use coven_github.Worker.Session.Retries.{value, error, Fallible}
use coven_github.Worker.Pipeline.{terminal, repo_of, say_if}
use coven_github.Worker.Surface.{final_status_body, surface_number}
use coven_github.Worker.Redact.{redact}
use coven_github.Worker.Findings.{gate, GateOutcome}
use coven_github.Worker.Findings.Digest.{render, parse_severity}
use coven_github.Worker.Session.Outcome.{Published, StaleRefs, disposition, terminal_of}
use coven_github.Worker.Hub.{Hub, TokenRole, upsert, got, lost, CheckConclusion, ReviewVerdict}
use coven_github.GitHub.{Task, TaskKind, review_pull_request}
use coven_github.Config.{FamiliarConfig, Config}
use coven_github.Config.Review.{min_severity_for, publish_for}
use coven_github.Store.Schema.{Db, Terminal, TerminalState}
use coven_github.Store.Queue.{finish}
use coven_github.Base.{
  ℕ, String, Option, [], if◌then◌else◌, is_empty, nat_Eq, none, some, text_Eq, ◌<>◌, ◌==◌, ◌>>=◌,
  ◌∷◌,
}

unfoldable pub stale_body : StaleRefs → String
stale_body stale =
    "Status: superseded\n\nThe PR head moved from `" <> stale.reviewed_sha <> "` to `"
    <> stale.current_sha
    <> "` while the review ran, so these findings no longer describe the current diff. The newer push is reviewed by its own event, or re-run with a `retry` command."

-- What a review's findings become: the Check Run's summary and the report for the comment.
pub record Report : Type 0 where
  pub check_summary : String
  pub advisory : Option String

abbrev pub stale_terminal : StaleRefs → Terminal
stale_terminal stale =
    terminal TerminalState.superseded
      (some ("head moved " <> stale.reviewed_sha <> " -> " <> stale.current_sha <> " mid-review"))
      none

abbrev pub failed_terminal : (token e : String) → Terminal
failed_terminal token e = terminal TerminalState.failed none (some (redact e (token ∷ [])))

abbrev verdict_of : GateOutcome → ReviewVerdict
verdict_of o = if is_empty o.published then ReviewVerdict.comment else ReviewVerdict.request_changes

module _ {W : Type 0} (hub : Hub W) (now : ℕ) (cfg : Config) (cave : Option String)
    (familiar : FamiliarConfig) (t : Task) where
  unfoldable pub gated : ℕ → Published → GateOutcome
  unfolding gate min_severity_for parse_severity
  gated pr_number p =
      gate p.result.review p.changed_files
        (min_severity_for cfg.review (repo_of t) >>= parse_severity)

  -- The blocking verdict: the publication token is minted only here; an error is only logged.
  unfoldable pub submit : W → ℕ → ReviewVerdict → String → W
  submit w pr_number verdict summary =
      let (minted, w1) = hub.mint w TokenRole.publication in
      elim minted [ lost e ↦ w1 | got _ ↦ (hub.submit_review w1 pr_number verdict summary).1 ]

  unfoldable pub publish_findings : W → Published → ℕ → Report × W
  unfolding gated render publish_for submit
  publish_findings w p pr_number =
      let outcome = gated pr_number p in
      let report = render outcome in
      let summary = p.result.summary <> "\n\n" <> report in
      let quiet : Report = record { check_summary = summary; advisory = none } in
      elim (publish_for cfg.review (repo_of t)) [
        | none ↦ (quiet, w)
        | some mode ↦
            if mode == "advisory_comment"
            then (record quiet { advisory = some report }, w)
            else if mode == "request_changes"
            then (quiet, submit w pr_number (verdict_of outcome) summary)
            else (quiet, w)
      ]

  abbrev report_of : W → Published → TaskKind → Report × W
  report_of w p (review_pull_request n title reason) = publish_findings w p n
  report_of w p _ = (record { check_summary = p.result.summary; advisory = none }, w)

  abbrev with_advisory : String → Option String → String
  with_advisory body none = body
  with_advisory body (some report) = body <> "\n\n" <> report

  unfoldable pub conclude_stale : Db → W → ℕ → StaleRefs → Db × W
  unfolding finish upsert surface_number stale_body
  conclude_stale db w check_id stale =
      let w1 = say_if hub familiar t w (surface_number t.kind) (stale_body stale) in
      (
        finish now db t.id (
            terminal TerminalState.superseded
              (some (
                "head moved " <> stale.reviewed_sha <> " -> " <> stale.current_sha
                <> " mid-review"))
              none),
        (hub.complete_check w1 check_id CheckConclusion.neutral "Stale" (
            "Reviewed " <> stale.reviewed_sha <> ", but the PR head is now " <> stale.current_sha
            <> " — findings withheld as stale.")).1,
      )

  unfoldable pub conclude_published : Db → W → ℕ → Published → Db × W
  unfolding finish upsert surface_number publish_findings final_status_body disposition terminal_of
  conclude_published db w check_id p =
      let disp = disposition p.result in
      let (report, w1) = report_of w p t.kind in
      let body =
        with_advisory (final_status_body cave t.id p.result p.opened_pr p.cited_memory)
          report.advisory in
      let w2 = say_if hub familiar t w1 (surface_number t.kind) body in
      (
        finish now db t.id (terminal_of p),
        (hub.complete_check w2 check_id disp.conclusion disp.title report.check_summary).1,
      )

  -- The error's chain is one text here, where the code shows its head on the comment and the check.
  unfoldable pub conclude_failed : Db → W → ℕ → (token e : String) → Db × W
  unfolding finish upsert surface_number redact
  conclude_failed db w check_id token e =
      let w1 =
        say_if hub familiar t w (surface_number t.kind)
          (redact ("Status: failed\n\nTask failed: " <> e) (token ∷ [])) in
      (
        finish now db t.id (failed_terminal token e),
        (hub.complete_check w1 check_id CheckConclusion.failure "Error"
            (redact ("Task failed: " <> e) (token ∷ []))).1,
      )

  unfoldable pub conclude : Db → W → ℕ → String → Fallible Published → Db × W
  unfolding conclude_stale conclude_published conclude_failed
  conclude db w check_id token (error e) = conclude_failed db w check_id token e
  conclude db w check_id token (value p) = elim p.stale [
    | some stale ↦ conclude_stale db w check_id stale
    | none ↦ conclude_published db w check_id p
  ]
