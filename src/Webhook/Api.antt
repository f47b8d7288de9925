-- ===== src/Webhook/Api.antt =====
-- The task API: `authorize_api`, `token_matches` and the handlers `list_tasks`, `list_memory`,
-- `revoke_memory`, `usage`, `audit` and `routing` of crates/webhook/src/routes.rs.
pub mod Credentials
pub mod Access
pub mod Revoking
use coven_github.Webhook.Replies.{familiar_names}
use coven_github.Store.Cave.{cave_list}
use coven_github.GitHub.{TaskListItem}
use coven_github.Config.Scopes.{routing_view, RoutingView}
use coven_github.Store.Schema.{err, ok, Result, MemoryActivity, KindJson, Db}
use coven_github.Config.{Config}
use coven_github.Store.Audit.{record_api_read, audit_events, AuditEvent}
use coven_github.Config.Api.{TenantToken, ApiMode, ApiConfig}
use mathlib.Core.Option as Option
use coven_github.Base.{
  ℕ, Bool, List, Option, String, [], contains, decimal, false, if◌then◌else◌, is_empty,
  is_empty_text, keep_if, length, nat_Eq, none, not, parse_u64, some, strip_prefix, text_Eq, trim,
  true, ◌&&◌, ◌<>◌, ◌==◌, ◌>>=◌, ◌∷◌,
}
use coven_github.Store.Memory.{ApiScope, record_revocation, list_memory as memory_list}
use coven_github.Store.Usage.{UsageRow, usage as usage_rollup}

-- A header's value, if it is there and is text; a query's value, if it is there.
abbrev pub Fields : Type 0
Fields = String → Option String

pub data ApiCaller : Type 0 where
  open_caller : ApiCaller
  service_caller : ApiCaller
  tenant_caller : TenantToken → ApiCaller
  denied_caller : ApiCaller

pub record RevokeRequest : Type 0 where
  pub repo : String
  pub key : String
  pub installation_id : Option ℕ

-- The JSON body of an answer, which comes with its status.
pub data ApiAnswer : Type 0 where
  api_error : (message : String) → ApiAnswer
  tasks_found : List TaskListItem → ApiAnswer
  memory_found : List MemoryActivity → ApiAnswer
  usage_found : List UsageRow → ApiAnswer
  events_found : List AuditEvent → ApiAnswer
  routing_found : RoutingView → ApiAnswer
  revoked : (key : String) → ApiAnswer

pub record ApiResponse : Type 0 where
  pub status : ℕ
  pub body : ApiAnswer

abbrev pub api_refused : ℕ → String → ApiResponse
api_refused status message = record { status = status; body = api_error message }

abbrev pub found : ApiAnswer → ApiResponse
found body = record { status = 200; body = body }

abbrev pub bearer_of : Fields → Option String
bearer_of headers =
    keep_if (λ (v : String). not (is_empty_text v))
      (Option.map trim (headers "authorization" >>= strip_prefix "Bearer "))

unfoldable pub caller_name : ApiCaller → String
caller_name open_caller = "open"
caller_name service_caller = "service"
caller_name (tenant_caller t) = "tenant:" <> decimal t.installation_id
caller_name denied_caller = "anonymous"

abbrev pub tenant_scope : TenantToken → ApiScope
tenant_scope t = record {
  installation_id = t.installation_id;
  repos = if is_empty t.repos then none else some t.repos;
}

unfoldable pub scope_of_caller : ApiCaller → Option ApiScope
scope_of_caller (tenant_caller t) = some (tenant_scope t)
scope_of_caller _ = none

abbrev pub scope_label : Option ApiScope → String
scope_label none = "all"
scope_label (some s) = "installation:" <> decimal s.installation_id

abbrev pub is_denied : ApiCaller → Bool
is_denied denied_caller = true
is_denied _ = false

-- The refusal of a caller with no credential, which is audited.
unfoldable pub deny : ℕ → Db → String → ApiResponse × Db
unfolding record_api_read
deny now db action =
    (api_refused 401 "unauthorized", record_api_read now db "anonymous" "none" action "denied")

-- A read that the four listings share: its answer, with the number of rows, and its audit entry.
unfoldable pub read_for :
    ℕ → Db → ApiCaller → String → String → Result (ApiAnswer × ℕ) → ApiResponse × Db
unfolding record_api_read caller_name scope_of_caller
read_for now db c action failure (ok (answer, n)) = (
  found answer,
  record_api_read now db (caller_name c) (scope_label (scope_of_caller c)) action
      ("ok:" <> decimal n),
)
read_for now db c action failure (err e) = (
  api_refused 500 failure,
  record_api_read now db (caller_name c) (scope_label (scope_of_caller c)) action "error",
)

abbrev pub map_result {ℓ κ} : {A : Type ℓ} {B : Type κ} → (A → B) → Result A → Result B
map_result f (ok a) = ok (f a)
map_result f (err e) = err e

abbrev pub counted {ℓ} : {A : Type ℓ} → (List A → ApiAnswer) → List A → ApiAnswer × ℕ
counted answer rows = (answer rows, length rows)

abbrev pub audit_limit : ℕ
audit_limit = 200

-- Who may revoke what: the caller's name and the installation, or a refusal with the result that is
-- audited, if it is.
pub data Grant : Type 0 where
  granted : (caller : String) (installation_id : ℕ) → Grant
  forbidden : (caller : String) → Grant
  unnamed : Grant

abbrev pub named_installation : Option ℕ → Grant
named_installation none = unnamed
named_installation (some id) = granted "service" id

unfoldable pub revoke_grant : ApiCaller → RevokeRequest → Grant
revoke_grant (tenant_caller t) req =
    if not (is_empty t.repos) && not (contains req.repo t.repos)
    then forbidden ("tenant:" <> decimal t.installation_id)
    else granted ("tenant:" <> decimal t.installation_id) t.installation_id
revoke_grant _ req = named_installation req.installation_id

unfoldable pub routing_grant : ApiCaller → Fields → Grant
unfolding parse_u64
routing_grant (tenant_caller t) query =
    granted ("tenant:" <> decimal t.installation_id) t.installation_id
routing_grant _ query = named_installation (query "installation_id" >>= parse_u64)

unfoldable pub revoked_by : ℕ → Db → RevokeRequest → Grant → ApiResponse × Db
unfolding record_revocation record_api_read
revoked_by now db req (granted caller id) = (
  found (revoked req.key),
  record_api_read now (record_revocation now db id req.repo req.key) caller req.repo "revoke_memory"
      "ok",
)
revoked_by now db req (forbidden caller) = (
  api_refused 403 "repository not in scope",
  record_api_read now db caller req.repo "revoke_memory" "forbidden",
)
revoked_by now db req unnamed = (api_refused 400 "installation_id required", db)

unfoldable pub viewed_by : ℕ → Config → Db → Grant → ApiResponse × Db
unfolding routing_view record_api_read
viewed_by now cfg db (granted caller id) = (
  found (routing_found (routing_view cfg id)),
  record_api_read now db caller (decimal id) "routing" "ok",
)
viewed_by now cfg db _ = (api_refused 400 "installation_id required", db)

-- `digest` is SHA-256 of a text.
module _ (digest : String → String) where
  unfoldable pub token_matches : String → String → Bool
  token_matches candidate expected = digest candidate == digest expected

  unfoldable pub tenant_for : String → List TenantToken → ApiCaller
  unfolding token_matches
  tenant_for candidate [] = denied_caller
  tenant_for candidate (t ∷ tenants) =
      if token_matches candidate t.token then tenant_caller t else tenant_for candidate tenants

  abbrev pub is_service : String → Option String → Bool
  is_service candidate none = false
  is_service candidate (some token) = token_matches candidate token

  unfoldable pub caller_in : ApiMode → ApiConfig → Option String → ApiCaller
  unfolding token_matches tenant_for
  caller_in ApiMode.open_mode api candidate = open_caller
  caller_in ApiMode.token_mode api none = denied_caller
  caller_in ApiMode.token_mode api (some candidate) =
      if is_service candidate api.service_token
      then service_caller
      else tenant_for candidate api.tenants

  unfoldable pub authorize_api : ApiConfig → Fields → ApiCaller
  unfolding caller_in trim strip_prefix
  authorize_api api headers = caller_in api.mode api (bearer_of headers)

-- `seconds` is SQLite's strftime('%s', …).
module _ (json : KindJson) (digest : String → String) (seconds : ℕ → ℕ) where
  unfoldable pub list_tasks : ℕ → Config → Db → Fields → ApiResponse × Db
  unfolding authorize_api deny read_for cave_list familiar_names
  list_tasks now cfg db headers =
      let c = authorize_api digest cfg.api headers in
      if is_denied c
      then deny now db "list_tasks"
      else read_for now db c "list_tasks" "task list unavailable" (
          map_result (counted tasks_found)
            (cave_list json db (familiar_names cfg) (scope_of_caller c)))

  unfoldable pub list_memory : ℕ → Config → Db → Fields → ApiResponse × Db
  unfolding authorize_api deny read_for memory_list
  list_memory now cfg db headers =
      let c = authorize_api digest cfg.api headers in
      if is_denied c
      then deny now db "list_memory"
      else read_for now db c "list_memory" "memory list unavailable"
          (ok (counted memory_found (memory_list db (scope_of_caller c))))

  unfoldable pub usage : ℕ → Config → Db → Fields → ApiResponse × Db
  unfolding authorize_api deny read_for usage_rollup
  usage now cfg db headers =
      let c = authorize_api digest cfg.api headers in
      if is_denied c
      then deny now db "usage"
      else read_for now db c "usage" "usage unavailable"
          (ok (counted usage_found (usage_rollup seconds db (scope_of_caller c))))

  unfoldable pub audit : ℕ → Config → Db → Fields → ApiResponse × Db
  unfolding authorize_api deny read_for audit_events
  audit now cfg db headers =
      let c = authorize_api digest cfg.api headers in
      if is_denied c
      then deny now db "audit"
      else read_for now db c "audit" "audit unavailable"
          (ok (counted events_found (audit_events db (scope_of_caller c) audit_limit)))

  unfoldable pub revoke_memory : ℕ → Config → Db → Fields → RevokeRequest → ApiResponse × Db
  unfolding authorize_api deny revoke_grant revoked_by
  revoke_memory now cfg db headers req =
      let c = authorize_api digest cfg.api headers in
      if is_denied c
      then deny now db "revoke_memory"
      else revoked_by now db req (revoke_grant c req)

  unfoldable pub routing : ℕ → Config → Db → Fields → Fields → ApiResponse × Db
  unfolding authorize_api deny routing_grant viewed_by
  routing now cfg db headers query =
      let c = authorize_api digest cfg.api headers in
      if is_denied c then deny now db "routing" else viewed_by now cfg db (routing_grant c query)
