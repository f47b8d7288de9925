-- ===== src/Examples/Policy.antt =====
-- The theorems on the memory policy, applied (crates/worker/src/memory.rs).
use coven_github.Worker.Memory.{
  compute_policy, derive_trust, is_revoked, required_prefix, scope_eq, scope_parse, check_scope,
  check_access, refuse_content, refuse_write, refuse_read, reject_writes, reject_reads,
  approval_forced, validate_memory_used, grants, TrustScope, ProposedMemory, PolicyInputs,
  MemoryUsed, MemoryPolicy,
}
use coven_github.Worker.Memory.Grants.{
  fork_never_writes, accepted_report, AcceptedWrite, AcceptedRead,
}
use coven_github.Worker.Memory.Grants.{fork_never_writes}
use coven_github.Base.{All, List, [], decimal, false, refl, some, starts_with, true, ◌∷◌, ◌≡◌}

abbrev inputs : TrustScope → PolicyInputs
inputs trust = record {
  enabled = true;
  installation_id = 42;
  repo = "acme/billing";
  trust = trust;
  approval_required = false;
  retention_days = some 365;
  denied = "repo/acme/billing/old" ∷ [];
}

abbrev policy_of : TrustScope → MemoryPolicy
policy_of trust = record {
  enabled = true;
  installation_id = 42;
  repo = "acme/billing";
  trust_scope = trust;
  read_scopes = (grants trust).0;
  write_scopes = (grants trust).1;
  approval_required = approval_forced trust;
  retention_days = some 365;
  denied = "repo/acme/billing/old" ∷ [];
}

abbrev used : List ProposedMemory → MemoryUsed
used writes = record {
  enabled = true;
  read = record { id = "repo/acme/billing/style"; scope = "repo" } ∷ [];
  proposed = writes;
  rejected = [];
}

abbrev proposal : ProposedMemory
proposal = record {
  key = "repo/acme/billing/tests";
  summary = "Tests run in CI";
  scope = "repo";
  approval = "pending";
}

accepted_report_example :
    All (AcceptedRead (policy_of TrustScope.maintainer)) (used (proposal ∷ [])).read
    × All (AcceptedWrite (λ _. false) (policy_of TrustScope.maintainer)) (proposal ∷ [])
unfolding validate_memory_used reject_reads reject_writes refuse_read refuse_write refuse_content
    check_access check_scope scope_parse scope_eq required_prefix is_revoked starts_with grants
    decimal
accepted_report_example =
    accepted_report (λ _. false) (policy_of TrustScope.maintainer) (used (proposal ∷ [])) refl refl

fork_never_writes_example : (used []).proposed ≡ []
unfolding validate_memory_used reject_reads reject_writes refuse_read refuse_write refuse_content
    check_access check_scope scope_parse scope_eq required_prefix is_revoked starts_with grants
    decimal derive_trust compute_policy
fork_never_writes_example =
    fork_never_writes (λ _. false) true (inputs TrustScope.fork_pr) (policy_of TrustScope.fork_pr)
      (used []) refl refl refl refl
