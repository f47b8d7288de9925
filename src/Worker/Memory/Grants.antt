-- ===== src/Worker/Memory/Grants.antt =====
-- What the memory policy guarantees (crates/worker/src/memory.rs).
use mathlib.Core.Option.{some-injective}
use mathlib.Core.Bool.{false≢true}
use coven_github.Base.{
  Bool, Bool-cases, List, String, [], any, ap, false, inl, inr, nat_Eq, none, not, some,
  starts_with, sym, text_Eq, true, ◌&&◌, ◌==◌, ◌||◌, ◌∙◌, ◌≡◌, All, Option-cases, refl, ◌++◌, ◌∷◌,
}
use coven_github.Worker.Memory.{
  MemoryPolicy, MemoryScope, PolicyInputs, ProposedMemory, check_access, check_scope,
  compute_policy, grants, is_revoked, required_prefix, scope_eq, scope_parse, MemoryEntryRef,
  MemoryUsed, derive_trust, refuse_content, refuse_read, refuse_write, reject_reads, reject_writes,
  validate_memory_used,
}

-- The policy of a session whose trust may not write grants no write scope.
no_write_scopes :
    (input : PolicyInputs) (policy : MemoryPolicy)
    → (grants input.trust).1 ≡ []
    → compute_policy input ≡ some policy
    → policy.write_scopes ≡ []
unfolding compute_policy
no_write_scopes input policy h e = elim (Bool-cases input.enabled) [
  | inr q ↦ cc (rw q at e)
  | inl q ↦ ap (λ (p : MemoryPolicy). p.write_scopes) (sym (some-injective _ _ (rw q at e))) ∙ h
]

-- The named scope is granted, and the target lies under its prefix.
pub record Addressed (policy : MemoryPolicy) (scope target : String) (granted : List MemoryScope)
    : Type 0 where
  pub namespace : MemoryScope
  pub named : scope_parse scope ≡ some namespace
  pub allowed : any (scope_eq namespace) granted ≡ true
  pub under : starts_with (required_prefix policy namespace) target ≡ true

module _ (policy : MemoryPolicy) where
  check_scope-none :
      (s : MemoryScope) (target : String) (granted : List MemoryScope)
      → check_scope policy s target granted ≡ none
      → (any (scope_eq s) granted ≡ true) × (starts_with (required_prefix policy s) target ≡ true)
  unfolding check_scope
  check_scope-none s target granted e = elim (Bool-cases (any (scope_eq s) granted)) [
    | inr q ↦ cc (rw q at e)
    | inl q ↦ elim (Bool-cases (starts_with (required_prefix policy s) target)) [
      | inr u ↦ cc (rw (q, u) at e)
      | inl u ↦ (q, u)
    ]
  ]

  check_access-none :
      (scope target : String) (granted : List MemoryScope)
      → check_access policy scope target granted ≡ none
      → Addressed policy scope target granted
  unfolding check_access
  check_access-none scope target granted e = elim (Option-cases (scope_parse scope)) [
    | inl q ↦ cc (rw (check_access, q) at e)
    | inr (s, q) ↦
        let (a, u) = check_scope-none s target granted (rw (check_access, q) at e) in
        record { namespace = s; named = q; allowed = a; under = u }
  ]

-- What a read that is not refused fulfils.
abbrev pub AcceptedRead : MemoryPolicy → MemoryEntryRef → Type 0
AcceptedRead policy entry =
    Addressed policy entry.scope entry.id policy.read_scopes × (is_revoked policy entry.id ≡ false)

-- What a write that is not refused fulfils.
abbrev pub AcceptedWrite : (String → Bool) → MemoryPolicy → ProposedMemory → Type 0
AcceptedWrite looks_secret policy w =
    Addressed policy w.scope w.key policy.write_scopes
    × (is_revoked policy w.key ≡ false)
    × ((looks_secret w.summary || looks_secret w.key) ≡ false)
    × ((policy.approval_required && not (w.approval == "pending")) ≡ false)

module _ (looks_secret : String → Bool) (policy : MemoryPolicy) where
  refuse_read-none : (r : MemoryEntryRef) → refuse_read policy r ≡ none → AcceptedRead policy r
  unfolding refuse_read
  refuse_read-none r e = elim (Bool-cases (is_revoked policy r.id)) [
    | inl q ↦ cc (rw q at e)
    | inr q ↦ (check_access-none policy r.scope r.id policy.read_scopes (rw q at e), q)
  ]

  refuse_content-none :
      (w : ProposedMemory)
      → refuse_content looks_secret policy w ≡ none
      → ((looks_secret w.summary || looks_secret w.key) ≡ false)
        × ((policy.approval_required && not (w.approval == "pending")) ≡ false)
  unfolding refuse_content
  refuse_content-none w e = elim (Bool-cases (looks_secret w.summary || looks_secret w.key)) [
    | inl q ↦ cc (rw q at e)
    | inr q ↦ elim (Bool-cases (policy.approval_required && not (w.approval == "pending"))) [
      | inl u ↦ cc (rw (q, u) at e)
      | inr u ↦ (q, u)
    ]
  ]

  refuse_write-none :
      (w : ProposedMemory)
      → refuse_write looks_secret policy w ≡ none
      → AcceptedWrite looks_secret policy w
  unfolding refuse_write
  refuse_write-none w e = elim (Bool-cases (is_revoked policy w.key)) [
    | inl q ↦ cc (rw q at e)
    | inr q ↦ elim (Option-cases (check_access policy w.scope w.key policy.write_scopes)) [
      | inr (reason, a) ↦ cc (rw (q, a) at e)
      | inl a ↦
          let (secret, approved) = refuse_content-none w (rw (q, a) at e) in
          (check_access-none policy w.scope w.key policy.write_scopes a, q, secret, approved)
    ]
  ]

  reject_reads-none :
      (rs : List MemoryEntryRef)
      → reject_reads looks_secret policy rs ≡ []
      → All (AcceptedRead policy) rs
  unfolding reject_reads
  reject_reads-none [] e = tt
  reject_reads-none (r ∷ rs) e = elim (Option-cases (refuse_read policy r)) [
    | inl q ↦ (refuse_read-none r q, reject_reads-none rs (rw (reject_reads, q) at e))
    | inr (reason, q) ↦ cc (rw (reject_reads, q) at e)
  ]

  reject_writes-none :
      (ws : List ProposedMemory)
      → reject_writes looks_secret policy ws ≡ []
      → All (AcceptedWrite looks_secret policy) ws
  unfolding reject_writes
  reject_writes-none [] e = tt
  reject_writes-none (w ∷ ws) e = elim (Option-cases (refuse_write looks_secret policy w)) [
    | inl q ↦ (refuse_write-none w q, reject_writes-none ws (rw (reject_writes, q) at e))
    | inr (reason, q) ↦ cc (rw (reject_writes, q) at e)
  ]

-- Both parts of a joined list that is empty are empty.
append_nil {ℓ} : {A : Type ℓ} (xs ys : List A) → xs ++ ys ≡ [] → (xs ≡ []) × (ys ≡ [])
append_nil [] ys e = (refl, e)
append_nil (x ∷ xs) ys e = cc

-- A report of enabled memory work is accepted whole only if every entry read and every write
-- proposed names a granted scope, lies under its scope's prefix and is not revoked, and every write
-- is free of credentials and pending where approval is required.
pub accepted_report :
    (looks_secret : String → Bool) (policy : MemoryPolicy) (used : MemoryUsed)
    → used.enabled ≡ true
    → validate_memory_used looks_secret policy used ≡ []
    → All (AcceptedRead policy) used.read × All (AcceptedWrite looks_secret policy) used.proposed
unfolding validate_memory_used
accepted_report looks_secret policy used on e =
    let (reads, writes) = append_nil _ _ (rw on at e) in
    (
      reject_reads-none looks_secret policy used.read reads,
      reject_writes-none looks_secret policy used.proposed writes,
    )

no_write :
    (looks_secret : String → Bool) (policy : MemoryPolicy) (ws : List ProposedMemory)
    → policy.write_scopes ≡ []
    → All (AcceptedWrite looks_secret policy) ws
    → ws ≡ []
no_write looks_secret policy [] h a = refl
no_write looks_secret policy (w ∷ ws) h a = absurd (
    false≢true
      (ap (λ (g : List MemoryScope). any (scope_eq a.0.0.namespace) g) (sym h) ∙ a.0.0.allowed))

-- Whoever triggers the session, the report of a pull request from a fork is accepted only if it
-- proposes no write, where memory is on and the report is of enabled memory work.
pub fork_never_writes :
    (looks_secret : String → Bool) (has_commander : Bool) (input : PolicyInputs)
    (policy : MemoryPolicy) (used : MemoryUsed)
    → input.trust ≡ derive_trust true has_commander
    → compute_policy input ≡ some policy
    → used.enabled ≡ true
    → validate_memory_used looks_secret policy used ≡ []
    → used.proposed ≡ []
unfolding derive_trust grants
fork_never_writes looks_secret has_commander input policy used trust e on v =
    no_write looks_secret policy used.proposed
      (no_write_scopes input policy (ap (λ t. (grants t).1) trust) e)
      (accepted_report looks_secret policy used on v).1
