-- ===== src/Worker/Pipeline/Governance.antt =====
-- What governs a session's memory and review (crates/worker/src/lib.rs, in `run_and_publish`): the
-- audit instruction, the memory policy, and the validation of the reported memory work.
use coven_github.Worker.Pipeline.{repo_of}
use coven_github.Worker.Redact.{redact}
use coven_github.Worker.Memory.{
  MemoryPolicy, MemoryRejection, MemoryEntryRef, MemoryUsed, MemoryOp, compute_policy, derive_trust,
  validate_memory_used,
}
use coven_github.Worker.Memory.Rows.{memory_activity_rows, op_eq}
use coven_github.GitHub.{Task}
use coven_github.Config.Memory.{MemoryConfig, enabled_for, approval_required_for}
use coven_github.Store.Memory.{record_memory_activity, revocations_for}
use coven_github.Store.Schema.{Db, is_none}
use coven_github.Base.{
  ℕ, List, String, Option, map, Bool, [], any, if◌then◌else◌, nat_Eq, none, not, select_where, some,
  text_Eq, ◌&&◌, ◌<>◌, ◌==◌,
}

abbrev depth : String
depth =
    "Perform a deep review: inspect supporting files beyond the changed set and verify behavior with tests where possible."

-- The audit instruction, which a `deepen` command adds to.
unfoldable pub deepened : Option String → String → Option String
deepened audit reason =
    if not (reason == "command:deepen")
    then audit
    else elim audit [ none ↦ some depth | some existing ↦ some (existing <> "\n\n" <> depth) ]

unfoldable pub memory_policy_for : MemoryConfig → Db → Task → Bool → Option MemoryPolicy
unfolding enabled_for approval_required_for compute_policy derive_trust revocations_for
memory_policy_for memory db t head_is_fork = compute_policy (record {
  enabled = enabled_for memory (repo_of t);
  installation_id = t.installation_id;
  repo = repo_of t;
  trust = derive_trust head_is_fork (not (is_none t.commander));
  approval_required = approval_required_for memory (repo_of t);
  retention_days = memory.retention_days;
  denied =
      if enabled_for memory (repo_of t)
      then revocations_for db t.installation_id (repo_of t)
      else [];
})

abbrev looks_secret : String → Bool
looks_secret text = not (redact text [] == text)

-- The reads that the validation accepted.
abbrev pub cited : List MemoryRejection → List MemoryEntryRef → List String
cited rejections reads =
    map (λ (e : MemoryEntryRef). e.id)
      (select_where
        (λ (e : MemoryEntryRef).
          not (
            any (λ (j : MemoryRejection). op_eq j.op MemoryOp.read && j.target == e.id) rejections))
        reads)

-- The validation of the reported memory work, its record, and the entries that are cited.
unfoldable pub audit_memory :
    ℕ → Db → Task → Option MemoryPolicy → Option MemoryUsed → List String × Db
unfolding validate_memory_used memory_activity_rows record_memory_activity redact
audit_memory now db t (some policy) (some used) =
    let rejections = validate_memory_used looks_secret policy used in
    (
      cited rejections used.read,
      record_memory_activity now db
          (memory_activity_rows t.installation_id (repo_of t) t.id used rejections),
    )
audit_memory now db t _ _ = ([], db)
