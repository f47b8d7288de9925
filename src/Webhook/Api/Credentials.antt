-- ===== src/Webhook/Api/Credentials.antt =====
-- Who a caller of the task API is taken for (crates/webhook/src/routes.rs).
use coven_github.Config.Api.{ApiMode, ApiConfig, TenantToken}
use coven_github.Webhook.Api.{
  Fields, ApiCaller, authorize_api, bearer_of, caller_in, denied_caller, open_caller,
  service_caller, tenant_caller, tenant_for, token_matches, is_service,
}
use coven_github.Base.{
  Memᴰ, String, some, ◌≡◌, All, All_mem, Bool-cases, List, [], eq_of_==, inl, inr, nat_Eq, refl,
  text_Eq, ◌∷◌, Option, none, true,
}

-- What the caller has shown to be taken for the service or a tenant.
abbrev pub Shown : (String → String) → ApiConfig → Fields → ApiCaller → Type 0
Shown digest api headers open_caller = api.mode ≡ ApiMode.open_mode
Shown digest api headers service_caller =
    (candidate : String) × (token : String) × (bearer_of headers ≡ some candidate)
    × (api.service_token ≡ some token)
    × (digest candidate ≡ digest token)
Shown digest api headers (tenant_caller t) =
    (candidate : String) × (bearer_of headers ≡ some candidate)
    × Memᴰ t api.tenants
    × (digest candidate ≡ digest t.token)
Shown digest api headers denied_caller = api.mode ≡ ApiMode.token_mode

module _ (digest : String → String) (api : ApiConfig) (headers : Fields) (candidate : String)
    (named : bearer_of headers ≡ some candidate) where
  service_of :
      (o : Option String)
      → is_service digest candidate o ≡ true
      → (token : String) × (o ≡ some token) × (digest candidate ≡ digest token)
  unfolding token_matches
  service_of none e = cc
  service_of (some token) e = (token, refl, eq_of_== _ _ e)

  Shown-tenant_for :
      (tenants : List TenantToken)
      → All (λ (t : TenantToken). Memᴰ t api.tenants) tenants
      → api.mode ≡ ApiMode.token_mode
      → Shown digest api headers (tenant_for digest candidate tenants)
  unfolding tenant_for token_matches
  Shown-tenant_for [] members mode = mode
  Shown-tenant_for (t ∷ tenants) members mode =
      elim (Bool-cases (token_matches digest candidate t.token)) [
        | inl e ↦ rw e (candidate, named, members.0, eq_of_== _ _ e)
        | inr e ↦ rw e (Shown-tenant_for tenants members.1 mode)
      ]

  Shown-token :
      api.mode ≡ ApiMode.token_mode
      → Shown digest api headers (caller_in digest ApiMode.token_mode api (some candidate))
  unfolding caller_in token_matches
  Shown-token mode = elim (Bool-cases (is_service digest candidate api.service_token)) [
    | inl e ↦
        let (token, known, same) = service_of api.service_token e in
        rw e (candidate, token, named, known, same)
    | inr e ↦ rw e (Shown-tenant_for api.tenants (All_mem api.tenants) mode)
  ]

module _ (digest : String → String) (api : ApiConfig) (headers : Fields) where
  Shown-caller_in :
      (m : ApiMode) (b : Option String)
      → api.mode ≡ m
      → bearer_of headers ≡ b
      → Shown digest api headers (caller_in digest m api b)
  unfolding caller_in
  Shown-caller_in ApiMode.open_mode b mode named = mode
  Shown-caller_in ApiMode.token_mode none mode named = mode
  Shown-caller_in ApiMode.token_mode (some candidate) mode named =
      Shown-token digest api headers candidate named mode

-- A caller is let in without a credential only in open mode; it is taken for the service or for a
-- tenant only if it bears a token with the digest of the service's, or of that tenant's.
pub authorize_api-Shown :
    (digest : String → String) (api : ApiConfig) (headers : Fields)
    → Shown digest api headers (authorize_api digest api headers)
unfolding authorize_api
authorize_api-Shown digest api headers =
    Shown-caller_in digest api headers api.mode (bearer_of headers) refl refl
