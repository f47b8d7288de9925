-- ===== src/Worker/Session.antt =====
-- A session and its result: the result's types (crates/github/src/lib.rs), and the launches, the
-- contract of the result and the outcome of crates/worker/src/lib.rs.
pub mod Contract
pub mod Retries
pub mod Outcome
use coven_github.Worker.Memory.{MemoryUsed}
use coven_github.Base.{ℕ, List, Option, String}

pub data SessionStatus : Type 0 where
  success : SessionStatus
  failure : SessionStatus
  partial : SessionStatus
  needs_input : SessionStatus

pub record CommitInfo : Type 0 where
  pub sha : String
  pub message : String

pub data ReviewMode : Type 0 where
  no_review : ReviewMode
  pull_request : ReviewMode
  review_comment : ReviewMode

pub data ReviewEvidenceStatus : Type 0 where
  not_applicable : ReviewEvidenceStatus
  complete : ReviewEvidenceStatus
  partial : ReviewEvidenceStatus
  missing : ReviewEvidenceStatus

pub data ReviewSeverity : Type 0 where
  info : ReviewSeverity
  low : ReviewSeverity
  medium : ReviewSeverity
  high : ReviewSeverity
  critical : ReviewSeverity

pub record ReviewFinding : Type 0 where
  pub severity : ReviewSeverity
  pub file : String
  pub line : Option ℕ
  pub title : String
  pub body : String
  pub recommendation : Option String

pub data ReviewTestStatus : Type 0 where
  passed : ReviewTestStatus
  failed : ReviewTestStatus
  not_run : ReviewTestStatus
  unknown : ReviewTestStatus

pub record ReviewTestRun : Type 0 where
  pub command : String
  pub status : ReviewTestStatus
  pub output_summary : Option String

pub record ReviewResult : Type 0 where
  pub mode : ReviewMode
  pub evidence_status : ReviewEvidenceStatus
  pub reviewed_files : List String
  pub supporting_files : List String
  pub findings : List ReviewFinding
  pub tests_run : List ReviewTestRun
  pub no_findings_reason : Option String
  pub limitations : List String

pub data ExitReason : Type 0 where
  test_failure : ExitReason
  ambiguous_spec : ExitReason
  git_conflict : ExitReason
  infra_error : ExitReason

pub record SessionResult : Type 0 where
  pub contract_version : String
  pub status : SessionStatus
  pub branch : Option String
  pub commits : List CommitInfo
  pub files_changed : List String
  pub summary : String
  pub pr_body : String
  pub review : ReviewResult
  pub exit_reason : Option ExitReason
  pub memory_used : Option MemoryUsed
