-- ===== src/Examples/Api.antt =====
-- The theorems on the task API, applied (crates/webhook/src/routes.rs).
use coven_github.Webhook.Api.Access.{listings_lem, Answers}
use coven_github.Examples.{sample_json, tables}
use coven_github.Examples.Plans.{cfg}
use coven_github.Webhook.Api.Credentials.{authorize_api-Shown, Shown}
use coven_github.Webhook.Api.Revoking.{revoke_memory_lem, Revoked}
use coven_github.Config.{Config}
use coven_github.Config.Api.{TenantToken, ApiMode}
use coven_github.Webhook.Api.{
  list_memory, usage, Fields, RevokeRequest, audit, authorize_api, caller_in, list_tasks,
  revoke_memory, tenant_caller, tenant_for, token_matches,
}
use coven_github.Base.{
  ℕ, String, [], if◌then◌else◌, nat_Eq, none, refl, some, strip_prefix, text_Eq, trim,
  trim_end_where, trim_start, ◌/◌, ◌<>◌, ◌==◌, ◌^◌, ◌∷◌, ◌≡◌,
}

abbrev acme : TenantToken
acme = record { token = "acme-token"; installation_id = 7; repos = "acme/api" ∷ [] }

abbrev api_cfg : Config
api_cfg = record cfg {
  api = record { mode = ApiMode.token_mode; service_token = some "operator"; tenants = acme ∷ [] };
}

abbrev as_acme : Fields
as_acme name = if name == "authorization" then some "Bearer acme-token" else none

-- A digest that keeps texts apart, and a clock in nanoseconds.
abbrev digest : String → String
digest s = "digest of " <> s

abbrev seconds : ℕ → ℕ
seconds at = at / 10 ^ 9

abbrev request : RevokeRequest
request = record { repo = "acme/api"; key = "repo:style"; installation_id = some 8 }

known_tenant : authorize_api digest api_cfg.api as_acme ≡ tenant_caller acme
unfolding authorize_api caller_in token_matches tenant_for strip_prefix trim trim_start
    trim_end_where
known_tenant = refl

authorize_api-Shown_example :
    Shown digest api_cfg.api as_acme (authorize_api digest api_cfg.api as_acme)
authorize_api-Shown_example = authorize_api-Shown digest api_cfg.api as_acme

listings_lem_example :
    let c = authorize_api digest api_cfg.api as_acme in
    Answers tables c (list_tasks sample_json digest seconds 30 api_cfg tables as_acme)
    × Answers tables c (list_memory sample_json digest seconds 30 api_cfg tables as_acme)
    × Answers tables c (usage sample_json digest seconds 30 api_cfg tables as_acme)
    × Answers tables c (audit sample_json digest seconds 30 api_cfg tables as_acme)
listings_lem_example = listings_lem sample_json digest seconds 30 api_cfg tables as_acme

revoke_memory_lem_example :
    Revoked 30 tables acme request
      (revoke_memory sample_json digest seconds 30 api_cfg tables as_acme request)
revoke_memory_lem_example =
    revoke_memory_lem sample_json digest seconds 30 api_cfg tables as_acme request acme known_tenant
