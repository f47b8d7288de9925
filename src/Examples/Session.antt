-- ===== src/Examples/Session.antt =====
-- The theorems on sessions, applied (crates/worker/src/lib.rs).
use coven_github.Worker.Session.Contract.{evidence_error, validate_result_contract}
use coven_github.Worker.Session.Retries.{
  retry_safe, read_result, explains_kill, run_coven_code, attempt, session_from, exited, written,
  timed_out, run_session, ResultFile, LaunchOutcome,
}
use coven_github.Worker.Session.Retries.Boundary.{
  attempts_from, is_retry_safe, run_session-value, run_session-error, Conclusive,
}
use coven_github.Base.{
  ℕ, All, [], decimal, false, if◌then◌else◌, nat_Eq, none, refl, some, text_Eq, true, ◌==◌, ◌∷◌,
  ◌≡◌, ◌≤◌,
}
use coven_github.Worker.Session.{SessionResult, ReviewEvidenceStatus, ReviewMode, SessionStatus}

abbrev pub result : SessionResult
result = record {
  contract_version = "2";
  status = SessionStatus.success;
  branch = some "cody/fix";
  commits = record { sha = "abc"; message = "Fix" } ∷ [];
  files_changed = "src/lib.rs" ∷ [];
  summary = "Fixed";
  pr_body = "";
  review = record {
    mode = ReviewMode.no_review;
    evidence_status = ReviewEvidenceStatus.not_applicable;
    reviewed_files = [];
    supporting_files = [];
    findings = [];
    tests_run = [];
    no_findings_reason = none;
    limitations = [];
  };
  exit_reason = none;
  memory_used = none;
}

-- The first attempt times out, and the second exits with 0.
abbrev launches : ℕ → LaunchOutcome
launches n = if n == 0 then timed_out else exited (some 0)

abbrev files : ℕ → ResultFile
files n = written result

run_session-value_example :
    (k : ℕ) × (k ≤ 2)
    × Conclusive (launches k) (files k) result
    × All (λ j. is_retry_safe (attempt false 600 launches files j) ≡ true) (attempts_from 0 k)
unfolding run_session session_from attempt run_coven_code read_result validate_result_contract
    evidence_error
run_session-value_example = run_session-value false 600 launches files 2 result refl

run_session-error_example :
    All
      (λ j. is_retry_safe (attempt true 600 (λ _. exited (some 137)) files j) ≡ true)
      (attempts_from 0 2)
    × (attempt true 600 (λ _. exited (some 137)) files 1
        ≡ retry_safe
            "coven-code exited with unexpected code 137: container killed (exit 137) — memory limit or forced stop")
unfolding run_session session_from attempt run_coven_code explains_kill decimal
run_session-error_example =
    run_session-error true 600 (λ _. exited (some 137)) files 1
      "coven-code exited with unexpected code 137: container killed (exit 137) — memory limit or forced stop"
      refl
