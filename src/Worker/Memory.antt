-- ===== src/Worker/Memory.antt =====
-- The memory policy (crates/worker/src/memory.rs): what a session may read and write, and the
-- validation of what the runtime reports.
pub mod Grants
pub mod Rows
use coven_github.Base.{
  ℕ, Bool, List, Option, String, [], any, decimal, false, if◌then◌else◌, nat_Eq, none, not, some,
  starts_with, text_Eq, true, ◌&&◌, ◌++◌, ◌<>◌, ◌==◌, ◌||◌, ◌∷◌,
}

pub data TrustScope : Type 0 where
  maintainer : TrustScope
  collaborator : TrustScope
  external : TrustScope
  fork_pr : TrustScope
  scheduled : TrustScope

pub data MemoryScope : Type 0 where
  repo : MemoryScope
  tenant_shared : MemoryScope
  familiar_global : MemoryScope

unfoldable pub scope_eq : MemoryScope → MemoryScope → Bool
scope_eq MemoryScope.repo MemoryScope.repo = true
scope_eq MemoryScope.tenant_shared MemoryScope.tenant_shared = true
scope_eq MemoryScope.familiar_global MemoryScope.familiar_global = true
scope_eq _ _ = false

unfoldable pub scope_parse : String → Option MemoryScope
scope_parse s =
    if s == "repo"
    then some MemoryScope.repo
    else if s == "tenant_shared"
    then some MemoryScope.tenant_shared
    else if s == "familiar_global"
    then some MemoryScope.familiar_global
    else none

-- The `Debug` form of a scope.
abbrev pub scope_debug : MemoryScope → String
scope_debug MemoryScope.repo = "Repo"
scope_debug MemoryScope.tenant_shared = "TenantShared"
scope_debug MemoryScope.familiar_global = "FamiliarGlobal"

pub record MemoryPolicy : Type 0 where
  pub enabled : Bool
  pub installation_id : ℕ
  pub repo : String
  pub trust_scope : TrustScope
  pub read_scopes : List MemoryScope
  pub write_scopes : List MemoryScope
  pub approval_required : Bool
  pub retention_days : Option ℕ
  pub denied : List String

pub record PolicyInputs : Type 0 where
  pub enabled : Bool
  pub installation_id : ℕ
  pub repo : String
  pub trust : TrustScope
  pub approval_required : Bool
  pub retention_days : Option ℕ
  pub denied : List String

unfoldable pub grants : TrustScope → List MemoryScope × List MemoryScope
grants TrustScope.maintainer =
    (MemoryScope.repo ∷ MemoryScope.tenant_shared ∷ [], MemoryScope.repo ∷ [])
grants TrustScope.collaborator = (MemoryScope.repo ∷ [], MemoryScope.repo ∷ [])
grants TrustScope.external = ([], [])
grants TrustScope.fork_pr = (MemoryScope.repo ∷ [], [])
grants TrustScope.scheduled = (MemoryScope.repo ∷ [], MemoryScope.repo ∷ [])

abbrev pub approval_forced : TrustScope → Bool
approval_forced TrustScope.collaborator = true
approval_forced _ = false

unfoldable pub compute_policy : PolicyInputs → Option MemoryPolicy
unfolding grants
compute_policy input =
    if not input.enabled
    then none
    else some (record {
      enabled = true;
      installation_id = input.installation_id;
      repo = input.repo;
      trust_scope = input.trust;
      read_scopes = (grants input.trust).0;
      write_scopes = (grants input.trust).1;
      approval_required = input.approval_required || approval_forced input.trust;
      retention_days = input.retention_days;
      denied = input.denied;
    })

unfoldable pub derive_trust : Bool → Bool → TrustScope
derive_trust head_is_fork has_commander =
    if head_is_fork
    then TrustScope.fork_pr
    else if has_commander
    then TrustScope.maintainer
    else TrustScope.collaborator

-- prefix ≤ target, as `target.starts_with(prefix)`
unfoldable pub is_revoked : MemoryPolicy → String → Bool
is_revoked policy target = any (λ (prefix : String). starts_with prefix target) policy.denied

pub data MemoryOp : Type 0 where
  read : MemoryOp
  write : MemoryOp

pub record MemoryRejection : Type 0 where
  pub op : MemoryOp
  pub target : String
  pub reason : String

pub record MemoryEntryRef : Type 0 where
  pub id : String
  pub scope : String

pub record ProposedMemory : Type 0 where
  pub key : String
  pub summary : String
  pub scope : String
  pub approval : String

pub record RejectedMemory : Type 0 where
  pub summary : String
  pub scope : String
  pub reason : String

pub record MemoryUsed : Type 0 where
  pub enabled : Bool
  pub read : List MemoryEntryRef
  pub proposed : List ProposedMemory
  pub rejected : List RejectedMemory

unfoldable pub required_prefix : MemoryPolicy → MemoryScope → String
required_prefix policy MemoryScope.repo = "repo/" <> policy.repo <> "/"
required_prefix policy MemoryScope.tenant_shared =
    "tenant/" <> decimal policy.installation_id <> "/"
required_prefix policy MemoryScope.familiar_global = "familiar/"

-- The check of a known scope: granted, and the target under the scope's prefix.
unfoldable pub check_scope : MemoryPolicy → MemoryScope → String → List MemoryScope → Option String
unfolding scope_eq required_prefix
check_scope policy scope target granted =
    if not (any (scope_eq scope) granted)
    then some ("scope '" <> scope_debug scope <> "' is not granted by policy")
    else if not (starts_with (required_prefix policy scope) target)
    then some (
        "key is not addressable under this invocation's scope (expected prefix '"
        <> required_prefix policy scope
        <> "')")
    else none

unfoldable pub check_access : MemoryPolicy → String → String → List MemoryScope → Option String
unfolding scope_parse check_scope
check_access policy scope target granted = elim (scope_parse scope) [
  | none ↦ some ("unknown memory scope '" <> scope <> "'")
  | some s ↦ check_scope policy s target granted
]

-- One round of the loop over the reads: the reason to refuse the entry.
unfoldable pub refuse_read : MemoryPolicy → MemoryEntryRef → Option String
unfolding is_revoked check_access
refuse_read policy entry =
    if is_revoked policy entry.id
    then some "memory has been revoked"
    else check_access policy entry.scope entry.id policy.read_scopes

module _ (looks_secret : String → Bool) where
  -- What a granted write must still fulfil.
  unfoldable pub refuse_content : MemoryPolicy → ProposedMemory → Option String
  refuse_content policy one =
      if looks_secret one.summary || looks_secret one.key
      then some "write still carries a credential after redaction"
      else if policy.approval_required && not (one.approval == "pending")
      then some ("approval is required but write is '" <> one.approval <> "', not 'pending'")
      else none

  -- One round of the loop over the writes: the reason to refuse the write.
  unfoldable pub refuse_write : MemoryPolicy → ProposedMemory → Option String
  unfolding is_revoked check_access refuse_content
  refuse_write policy one =
      if is_revoked policy one.key
      then some "memory has been revoked"
      else elim (check_access policy one.scope one.key policy.write_scopes) [
        | some reason ↦ some reason
        | none ↦ refuse_content policy one
      ]

  unfoldable pub reject_reads : MemoryPolicy → List MemoryEntryRef → List MemoryRejection
  unfolding refuse_read
  reject_reads policy [] = []
  reject_reads policy (entry ∷ entries) =
      let rest = reject_reads policy entries in
      elim (refuse_read policy entry) [
        | none ↦ rest
        | some reason ↦ record { op = MemoryOp.read; target = entry.id; reason = reason } ∷ rest
      ]

  unfoldable pub reject_writes : MemoryPolicy → List ProposedMemory → List MemoryRejection
  unfolding refuse_write
  reject_writes policy [] = []
  reject_writes policy (one ∷ writes) =
      let rest = reject_writes policy writes in
      elim (refuse_write policy one) [
        | none ↦ rest
        | some reason ↦ record { op = MemoryOp.write; target = one.key; reason = reason } ∷ rest
      ]

  unfoldable pub validate_memory_used : MemoryPolicy → MemoryUsed → List MemoryRejection
  unfolding reject_reads reject_writes
  validate_memory_used policy used =
      if not used.enabled
      then []
      else reject_reads policy used.read ++ reject_writes policy used.proposed
