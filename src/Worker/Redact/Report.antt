-- ===== src/Worker/Redact/Report.antt =====
-- The redaction of all that a session reports: `sanitize_result`, `fix` and `fix_opt` of
-- crates/worker/src/redact.rs. The code edits the result in place; here the edited one is the value.
use coven_github.Worker.Redact.{redact}
use coven_github.Worker.Session.{
  CommitInfo, ReviewFinding, ReviewResult, ReviewTestRun, SessionResult,
}
use coven_github.Base.{List, String, Option, map, if◌then◌else◌, nat_Eq, none, some, text_Eq, ◌==◌}

-- A text that the redaction leaves alone is not written again.
unfoldable pub fix : List String → String → String
fix live_tokens text =
    let redacted = redact text live_tokens in if redacted == text then text else redacted

unfoldable pub fix_opt : List String → Option String → Option String
fix_opt live_tokens none = none
fix_opt live_tokens (some text) = some (fix live_tokens text)

abbrev pub fix_commit : List String → CommitInfo → CommitInfo
fix_commit live_tokens c = record {
  sha = fix live_tokens c.sha;
  message = fix live_tokens c.message;
}

abbrev pub fix_finding : List String → ReviewFinding → ReviewFinding
fix_finding live_tokens f = record f {
  file = fix live_tokens f.file;
  title = fix live_tokens f.title;
  body = fix live_tokens f.body;
  recommendation = fix_opt live_tokens f.recommendation;
}

abbrev pub fix_test : List String → ReviewTestRun → ReviewTestRun
fix_test live_tokens t = record t {
  command = fix live_tokens t.command;
  output_summary = fix_opt live_tokens t.output_summary;
}

abbrev pub fix_review : List String → ReviewResult → ReviewResult
fix_review live_tokens r = record r {
  reviewed_files = map (fix live_tokens) r.reviewed_files;
  supporting_files = map (fix live_tokens) r.supporting_files;
  findings = map (fix_finding live_tokens) r.findings;
  tests_run = map (fix_test live_tokens) r.tests_run;
  no_findings_reason = fix_opt live_tokens r.no_findings_reason;
  limitations = map (fix live_tokens) r.limitations;
}

unfoldable pub sanitize_result : List String → SessionResult → SessionResult
sanitize_result live_tokens result = record result {
  summary = fix live_tokens result.summary;
  pr_body = fix live_tokens result.pr_body;
  branch = fix_opt live_tokens result.branch;
  commits = map (fix_commit live_tokens) result.commits;
  files_changed = map (fix live_tokens) result.files_changed;
  review = fix_review live_tokens result.review;
}
