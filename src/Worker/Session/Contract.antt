-- ===== src/Worker/Session/Contract.antt =====
-- The contract of a result: `validate_result_contract` of crates/worker/src/lib.rs.
use coven_github.Store.Schema.{is_none}
use coven_github.Base.{
  Bool, Option, String, false, if◌then◌else◌, is_blank, is_empty, nat_Eq, none, not, some, text_Eq,
  true, ◌&&◌, ◌<>◌, ◌==◌,
}
use coven_github.Worker.Session.{
  SessionResult, ReviewEvidenceStatus, ReviewMode, ReviewResult, SessionStatus,
}

-- The `Debug` forms that the errors print.
abbrev status_debug : SessionStatus → String
status_debug SessionStatus.success = "Success"
status_debug SessionStatus.failure = "Failure"
status_debug SessionStatus.partial = "Partial"
status_debug SessionStatus.needs_input = "NeedsInput"

abbrev mode_debug : ReviewMode → String
mode_debug ReviewMode.no_review = "None"
mode_debug ReviewMode.pull_request = "PullRequest"
mode_debug ReviewMode.review_comment = "ReviewComment"

abbrev evidence_debug : ReviewEvidenceStatus → String
evidence_debug ReviewEvidenceStatus.not_applicable = "NotApplicable"
evidence_debug ReviewEvidenceStatus.complete = "Complete"
evidence_debug ReviewEvidenceStatus.partial = "Partial"
evidence_debug ReviewEvidenceStatus.missing = "Missing"

abbrev pub is_success : SessionStatus → Bool
is_success SessionStatus.success = true
is_success _ = false

-- Failure | NeedsInput
abbrev pub needs_reason : SessionStatus → Bool
needs_reason SessionStatus.failure = true
needs_reason SessionStatus.needs_input = true
needs_reason _ = false

-- PullRequest | ReviewComment
abbrev pub is_review_mode : ReviewMode → Bool
is_review_mode ReviewMode.no_review = false
is_review_mode _ = true

abbrev pub is_not_applicable : ReviewEvidenceStatus → Bool
is_not_applicable ReviewEvidenceStatus.not_applicable = true
is_not_applicable _ = false

abbrev pub is_missing : ReviewEvidenceStatus → Bool
is_missing ReviewEvidenceStatus.missing = true
is_missing _ = false

abbrev pub is_complete : ReviewEvidenceStatus → Bool
is_complete ReviewEvidenceStatus.complete = true
is_complete _ = false

-- The reason, trimmed, is empty.
abbrev pub lacks_reason : Option String → Bool
lacks_reason none = true
lacks_reason (some s) = is_blank s

-- The checks in review mode.
unfoldable pub review_error : ReviewResult → Option String
review_error r =
    if is_not_applicable r.evidence_status
    then some ("review evidence_status not_applicable is invalid for " <> mode_debug r.mode)
    else if not (is_missing r.evidence_status) && is_empty r.reviewed_files
    then some ("reviewed_files is required for review mode " <> mode_debug r.mode)
    else if is_complete r.evidence_status
        && is_empty r.findings
        && lacks_reason r.no_findings_reason
    then some "no_findings_reason is required when complete review findings are empty"
    else none

-- The checks of the review part, those of the mode `None` last.
unfoldable pub evidence_error : ReviewResult → Option String
unfolding review_error
evidence_error r =
    if is_review_mode r.mode
    then review_error r
    else if not (is_not_applicable r.evidence_status)
    then some (
        "review evidence_status "
        <> evidence_debug r.evidence_status
        <> " is invalid for none mode")
    else none

-- The error that the validation fails with, if any.
unfoldable pub validate_result_contract : SessionResult → Option String
unfolding evidence_error
validate_result_contract r =
    if not (r.contract_version == "2")
    then some ("unsupported result contract_version " <> r.contract_version <> "; expected 2")
    else if is_success r.status && not (is_none r.exit_reason)
    then some "result exit_reason must be null when status is success"
    else if needs_reason r.status && is_none r.exit_reason
    then some ("result exit_reason is required when status is " <> status_debug r.status)
    else evidence_error r.review
