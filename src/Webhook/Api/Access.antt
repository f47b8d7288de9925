-- ===== src/Webhook/Api/Access.antt =====
-- What a caller of the task API sees and changes (crates/webhook/src/routes.rs).
use coven_github.Store.Cave.{cave_list}
use coven_github.Webhook.Replies.{familiar_names}
use coven_github.Store.Usage.Scope.{usage-scoped}
use coven_github.Store.Memory.Governance.{list_memory-scoped}
use mathlib.Core.Path.{subst}
use coven_github.Config.Api.{TenantToken}
use coven_github.Config.{Config}
use coven_github.Store.Usage.{UsageRow}
use coven_github.Store.Audit.Scope.{Traced, audit_events-scoped}
use coven_github.Store.Cave.Scope.{Described, cave_list-scoped, ok-injective}
use coven_github.Store.Schema.{ok, Result, MemoryActivity, Db, AuditRow, KindJson, err}
use coven_github.Store.Audit.{event_in_repos, record_api_read, AuditEvent, audit_events}
use coven_github.Store.Memory.{in_repos, ApiScope}
use coven_github.Webhook.Api.{
  routing_found, is_denied, events_found, usage_found, scope_of_caller, denied_caller, api_error,
  tenant_scope, memory_found, tenant_caller, tasks_found, read_for, deny, ApiResponse, ApiCaller,
  ApiAnswer, Fields, audit, counted, map_result, open_caller, service_caller, audit_limit,
  authorize_api, list_tasks,
}
use coven_github.Store.Memory.{list_memory as memory_list}
use coven_github.Store.Usage.{usage as usage_rollup}
use coven_github.Webhook.Api.{list_memory, usage}
use coven_github.Base.{
  ℕ, All, Option, String, if◌then◌else◌, refl, some, true, ◌∷◌, ◌≡◌, List, none, ap,
}

-- The request is written to the audit trail, and nothing else is written.
abbrev pub Logged : Db → Db → Type 0
Logged before after = (row : AuditRow) × (after ≡ record before { audit = row ∷ before.audit })

-- Every row of an answer is of the scope's installation and, if it names repositories, of these.
abbrev pub Within : Db → ApiScope → ApiAnswer → Type 0
Within db s (tasks_found items) = All (Described db.tasks s) items
Within db s (memory_found rows) =
    All
      (λ (r : MemoryActivity).
        (r.installation_id ≡ s.installation_id) × (in_repos s.repos r.repo ≡ true))
      rows
Within db s (usage_found rows) =
    All
      (λ (u : UsageRow). (u.installation_id ≡ s.installation_id) × (in_repos s.repos u.repo ≡ true))
      rows
Within db s (events_found events) =
    All (λ (e : AuditEvent). Traced db s e × (event_in_repos s.repos e.repo ≡ true)) events
Within db s (routing_found view) = view.installation_id ≡ s.installation_id
Within db s _ = Unit

-- What a caller with this scope may be shown.
abbrev pub MayShow : Db → ApiCaller → ApiResponse → Type 0
MayShow db (tenant_caller t) r = Within db (tenant_scope t) r.body
MayShow db denied_caller r = (r.status ≡ 401) × (r.body ≡ api_error "unauthorized")
MayShow db _ r = Unit

abbrev pub Answers : Db → ApiCaller → (ApiResponse × Db) → Type 0
Answers db c (r, after) = MayShow db c r × Logged db after

deny-Answer : (now : ℕ) (db : Db) (action : String) → Answers db denied_caller (deny now db action)
unfolding deny record_api_read
deny-Answer now db action = ((refl, refl), (_, refl))

module _ (now : ℕ) (db : Db) (action failure : String) where
  read_for-Logged :
      (c : ApiCaller) (r : Result (ApiAnswer × ℕ))
      → Logged db (read_for now db c action failure r).1
  unfolding read_for record_api_read
  read_for-Logged c (ok (a, n)) = (_, refl)
  read_for-Logged c (err e) = (_, refl)

  tenant-Answer :
      (t : TenantToken) (r : Result (ApiAnswer × ℕ))
      → ((a : ApiAnswer) (n : ℕ) → r ≡ ok (a, n) → Within db (tenant_scope t) a)
      → Answers db (tenant_caller t) (read_for now db (tenant_caller t) action failure r)
  unfolding read_for
  tenant-Answer t (ok (a, n)) inside =
      (inside a n refl, read_for-Logged (tenant_caller t) (ok (a, n)))
  tenant-Answer t (err e) inside = (tt, read_for-Logged (tenant_caller t) (err e))

  -- A listing that is within every tenant's scope is answered within it.
  listing-Answer :
      (c : ApiCaller) (rows : Option ApiScope → Result (ApiAnswer × ℕ))
      → ((s : ApiScope) (a : ApiAnswer) (n : ℕ) → rows (some s) ≡ ok (a, n) → Within db s a)
      → Answers db c (
          if is_denied c
          then deny now db action
          else read_for now db c action failure (rows (scope_of_caller c)))
  unfolding scope_of_caller
  listing-Answer open_caller rows inside = (tt, read_for-Logged open_caller (rows none))
  listing-Answer service_caller rows inside = (tt, read_for-Logged service_caller (rows none))
  listing-Answer (tenant_caller t) rows inside =
      tenant-Answer t (rows (some (tenant_scope t))) (inside (tenant_scope t))
  listing-Answer denied_caller rows inside = deny-Answer now db action

counted-answer {ℓ} :
    {A : Type ℓ} (db : Db) (s : ApiScope) (answer : List A → ApiAnswer) (r : Result (List A))
    → ((rows : List A) → r ≡ ok rows → Within db s (answer rows))
    → (a : ApiAnswer) (n : ℕ) → map_result (counted answer) r ≡ ok (a, n)
    → Within db s a
counted-answer db s answer (ok rows) inside a n e =
    subst (λ (x : ApiAnswer × ℕ). Within db s x.0) (ok-injective e) (inside rows refl)
counted-answer db s answer (err f) inside a n e = cc

-- Each of the four listings is written to the audit trail, and nothing else is written; a tenant is
-- shown only rows of its installation and, if its token names repositories, of these, and a caller
-- that is denied nothing.
pub listings_lem :
    (json : KindJson) (digest : String → String) (seconds : ℕ → ℕ) (now : ℕ) (cfg : Config)
    (db : Db) (headers : Fields)
    → let c = authorize_api digest cfg.api headers in
      Answers db c (list_tasks json digest seconds now cfg db headers)
      × Answers db c (list_memory json digest seconds now cfg db headers)
      × Answers db c (usage json digest seconds now cfg db headers)
      × Answers db c (audit json digest seconds now cfg db headers)
unfolding list_tasks list_memory usage audit
listings_lem json digest seconds now cfg db headers =
    let c = authorize_api digest cfg.api headers in
    let names = familiar_names cfg in
    (
      listing-Answer now db "list_tasks" "task list unavailable" c
          (λ s. map_result (counted tasks_found) (cave_list json db names s))
          (λ s.
            counted-answer db s tasks_found (cave_list json db names (some s))
              (cave_list-scoped json db names s)),
      listing-Answer now db "list_memory" "memory list unavailable" c
          (λ s. map_result (counted memory_found) (ok (memory_list db s)))
          (λ s. counted-answer db s memory_found (ok (memory_list db (some s))) (λ rows e.
            subst (Within db s) (ap memory_found (ok-injective e)) (list_memory-scoped db s))),
      listing-Answer now db "usage" "usage unavailable" c
          (λ s. map_result (counted usage_found) (ok (usage_rollup seconds db s)))
          (λ s. counted-answer db s usage_found (ok (usage_rollup seconds db (some s))) (λ rows e.
            subst (Within db s) (ap usage_found (ok-injective e)) (usage-scoped seconds db s))),
      listing-Answer now db "audit" "audit unavailable" c
          (λ s. map_result (counted events_found) (ok (audit_events db s audit_limit)))
          (λ s.
            counted-answer db s events_found (ok (audit_events db (some s) audit_limit)) (λ rows e.
              subst (Within db s) (ap events_found (ok-injective e))
                (audit_events-scoped db s audit_limit).1)),
    )
