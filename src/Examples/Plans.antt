-- ===== src/Examples/Plans.antt =====
-- The theorems on plans, limits and routing, applied (crates/store/src/lib.rs,
-- crates/config/src/lib.rs, crates/worker/src/lib.rs).
use coven_github.Config.Api.{ApiMode}
use coven_github.Store.Retention.{is_number}
use coven_github.Store.Deliveries.{seen}
use coven_github.Store.Queue.{cap_of}
use coven_github.Store.Billing.{
  stamped, record_installation_account, record_delivery_with_plan, plan_for_installation,
}
use coven_github.Config.Scopes.{
  override_of, narrowed, allowed_familiars, routing_view, familiar_by_label, scope_for, ids,
  all_lanes,
}
use coven_github.Store.Billing.Plans.{purchase_lem, account_behind}
use coven_github.Worker.Limits.{claim_caps, cap_of-claim_caps}
use coven_github.Config.Scopes.Access.{scope_for-routing_view, routed-Routable, Routable}
use coven_github.Config.{
  limits_for, effective_limits, tier_of, RepoRoutingOverride, PlanTier, InstallationConfig,
  FamiliarConfig, Config,
}
use coven_github.Store.Schema.{new, duplicate, empty, Db, AccountPlan}
use coven_github.Base.{
  ℕ, Option, [], false, if◌then◌else◌, inl, inr, none, not, refl, select_where, some, true, ◌&&◌,
  ◌∷◌, ◌≡◌,
}
use coven_github.Examples.{delivery}

abbrev plan : AccountPlan
plan = record {
  account_id = 70;
  account_login = "acme";
  plan_name = "Hosted Team";
  tier = "team";
  state = "active";
  source = "marketplace";
  updated_at = 0;
}

abbrev accounts : Db
accounts = record_installation_account 4 empty 7 70 "acme"

purchase_lem_example :
    let (outcome, after) =
      record_delivery_with_plan 9 accounts (delivery "d9" 7) "plan" (some plan) in
    (outcome ≡ (if seen accounts "d9" then duplicate else new))
    × (plan_for_installation after 7 ≡ (
        if not (seen accounts "d9") && is_number (account_behind accounts 7) 70
        then some (stamped 9 plan)
        else plan_for_installation accounts 7))
purchase_lem_example = purchase_lem 9 accounts (delivery "d9" 7) "plan" plan 7

abbrev pub cody : FamiliarConfig
cody = record {
  id = "cody";
  display_name = "Cody";
  bot_username = "coven-cody[bot]";
  model = none;
  skills = [];
  trigger_labels = "coven:fix" ∷ [];
}

abbrev lane_off : RepoRoutingOverride
lane_off = record {
  enabled = none;
  assignment = none;
  labels = some false;
  commands = none;
  reviews = none;
}

abbrev pub entry : ℕ → Option ℕ → InstallationConfig
entry i cap = record {
  id = i;
  account = none;
  familiars = "cody" ∷ [];
  triggers = all_lanes true;
  limits = record { max_concurrent = cap; max_tasks_per_day = none };
  repos = ("acme/api", lane_off) ∷ [];
}

abbrev pub cfg : Config
cfg = record {
  familiars = cody ∷ record cody { id = "sage" } ∷ [];
  installations = entry 7 (some 2) ∷ entry 8 none ∷ [];
  review = record {
    familiar = some "cody";
    pull_request = true;
    include_drafts = false;
    audit_instruction = none;
    min_severity = none;
    publish = none;
    repos = [];
  };
  api = record { mode = ApiMode.token_mode; service_token = none; tenants = [] };
  require_plan = false;
  webhook_secret = "secret";
  gardener = record {
    enabled = true;
    autonomy = "prune-dead";
    schedule = "0 4 * * *";
    exclude = "release/*" ∷ [];
    draft_pr_label = none;
    repos = [];
  };
}

cap_of-claim_caps_example :
    cap_of 8 (claim_caps cfg ((7, "team") ∷ (8, "team") ∷ []))
    ≡ (effective_limits (limits_for cfg 8) (some PlanTier.team)).max_concurrent
unfolding tier_of
cap_of-claim_caps_example =
    cap_of-claim_caps cfg ((7, "team") ∷ (8, "team") ∷ []) 8 (refl, (refl, tt)) (refl, (refl, tt))

routed-Routable_example : Routable cfg 7 cody
unfolding scope_for familiar_by_label allowed_familiars select_where
routed-Routable_example = routed-Routable cfg 7 "acme/api" "coven:fix" cody refl (inr (inl refl))

scope_for-routing_view_example :
    (ids (scope_for cfg 7 "acme/api").familiars ≡ (routing_view cfg 7).familiars)
    × ((scope_for cfg 7 "acme/api").triggers
        ≡ narrowed
            (override_of "acme/api" (routing_view cfg 7).repos)
            (routing_view cfg 7).triggers)
scope_for-routing_view_example = scope_for-routing_view cfg 7 "acme/api"
