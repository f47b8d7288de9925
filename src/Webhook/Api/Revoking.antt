-- ===== src/Webhook/Api/Revoking.antt =====
-- What a tenant can revoke (crates/webhook/src/routes.rs).
use mathlib.Core.Bool.{false≢true}
use coven_github.Store.Audit.{record_api_read}
use coven_github.Store.Memory.{record_revocation, revocations_for}
use coven_github.Store.Memory.Governance.{revocations_for-record}
use coven_github.Config.Api.{TenantToken}
use coven_github.Store.Schema.{KindJson, Db}
use coven_github.Config.{Config}
use coven_github.Webhook.Api.{
  granted, forbidden, tenant_caller, authorize_api, revoked_by, revoke_memory, revoke_grant,
  RevokeRequest, Fields, ApiResponse,
}
use coven_github.Base.{
  ℕ, Bool, Bool-cases, String, [], contains, decimal, false, if◌then◌else◌, inl, inr, is_empty,
  nat_Eq, refl, sym, text_Eq, true, ◌&&◌, ◌++◌, ◌<>◌, ◌==◌, ◌||◌, ◌∷◌, ◌≡◌,
}

-- A tenant's token names no repositories, or names this one.
abbrev pub may_revoke : TenantToken → String → Bool
may_revoke t repo = is_empty t.repos || contains repo t.repos

module _ (now : ℕ) (db : Db) (t : TenantToken) (req : RevokeRequest) where
  -- The grant is for the tenant's installation, whatever the request names.
  grant_within :
      may_revoke t req.repo ≡ true
      → revoke_grant (tenant_caller t) req
        ≡ granted ("tenant:" <> decimal t.installation_id) t.installation_id
  unfolding revoke_grant
  grant_within h = elim (Bool-cases (is_empty t.repos)) [
    | inl e ↦ rw e refl
    | inr e ↦ rw (e, rw e at h) refl
  ]

  grant_outside :
      may_revoke t req.repo ≡ false
      → revoke_grant (tenant_caller t) req ≡ forbidden ("tenant:" <> decimal t.installation_id)
  unfolding revoke_grant
  grant_outside h = elim (Bool-cases (is_empty t.repos)) [
    | inl e ↦ absurd (false≢true (sym (rw e at h)))
    | inr e ↦ rw (e, rw e at h) refl
  ]

  abbrev pub Revoked : (ApiResponse × Db) → Type 0
  Revoked (r, after) =
      (r.status ≡ (if may_revoke t req.repo then 200 else 403))
      × (after ≡ record db { audit = after.audit; revocations = after.revocations })
      × ((i : ℕ) (repo : String)
          → revocations_for after i repo ≡ (
              if may_revoke t req.repo && (t.installation_id == i && req.repo == repo)
              then revocations_for db i repo ++ req.key ∷ []
              else revocations_for db i repo))

  revoked_by-Revoked : Revoked (revoked_by now db req (revoke_grant (tenant_caller t) req))
  unfolding revoked_by record_api_read record_revocation revocations_for
  revoked_by-Revoked = elim (Bool-cases (may_revoke t req.repo)) [
    | inl h ↦
        rw (h, grant_within h)
          (
            refl,
            refl,
            λ i repo. revocations_for-record now db t.installation_id i req.repo repo req.key,
          )
    | inr h ↦ rw (h, grant_outside h) (refl, refl, λ i repo. refl)
  ]

-- A tenant's request to revoke appends its key to the denial list of the tenant's own installation
-- and the request's repository, if its token names no repositories or names this one, and is
-- answered with 200; otherwise it is answered with 403. No other denial list changes, and no other
-- table but the audit trail.
pub revoke_memory_lem :
    (json : KindJson) (digest : String → String) (seconds : ℕ → ℕ) (now : ℕ) (cfg : Config)
    (db : Db) (headers : Fields) (req : RevokeRequest) (t : TenantToken)
    → authorize_api digest cfg.api headers ≡ tenant_caller t
    → Revoked now db t req (revoke_memory json digest seconds now cfg db headers req)
unfolding revoke_memory
revoke_memory_lem json digest seconds now cfg db headers req t e =
    rw (e, revoke_memory) (revoked_by-Revoked now db t req)
