-- ===== src/Webhook/Intake/Marketplace.antt =====
-- Purchases on the marketplace: `handle_marketplace_purchase` of crates/webhook/src/routes.rs.
use coven_github.Store.Billing.{record_delivery_with_plan}
use coven_github.Store.Audit.{record_api_read}
use coven_github.Config.{tier_parse, tier_name, PlanTier}
use coven_github.Webhook.Payload.{WebhookPayload, MarketplacePurchase, MarketplacePlan}
use coven_github.Webhook.Intake.{
  plan_recorded, passed_over, ok_with, quiet, Handled, repeated, Call, audit_call,
}
use coven_github.Store.Schema.{Delivery, Db, AccountPlan, duplicate, new}
use mathlib.Core.Option as Option
use coven_github.Base.{
  ℕ, Bool, Option, String, decimal, get_or_else, if◌then◌else◌, nat_Eq, none, some, text_Eq, ◌<>◌,
  ◌==◌, ◌>>=◌, ◌||◌,
}

pub record Transition : Type 0 where
  pub purchase : MarketplacePurchase
  pub plan_state : String
  pub plan_name : String
  pub tier : PlanTier

abbrev pub plan_state_of : String → Bool → Option String
plan_state_of action on_free_trial =
    if action == "purchased" || action == "changed"
    then some (if on_free_trial then "trial" else "active")
    else if action == "cancelled"
    then some "cancelled"
    else none

abbrev pub plan_name_of : Option MarketplacePlan → String
plan_name_of none = ""
plan_name_of (some p) = p.name

unfoldable pub transition_of : WebhookPayload → Option Transition
unfolding tier_parse
transition_of payload = do
  purchase ← payload.marketplace_purchase
  plan_state ← plan_state_of (get_or_else payload.action "") purchase.on_free_trial
  some (record {
    purchase = purchase;
    plan_state = plan_state;
    plan_name = plan_name_of purchase.plan;
    tier = tier_parse (plan_name_of purchase.plan);
  })

unfoldable pub plan_record : Transition → AccountPlan
plan_record t = record {
  account_id = t.purchase.account.id;
  account_login = t.purchase.account.login;
  plan_name = t.plan_name;
  tier = tier_name t.tier;
  state = t.plan_state;
  source = "marketplace";
  updated_at = 0;
}

-- The answer to a new delivery: a transition is audited.
unfoldable pub plan_answer : (Call → Bool) → ℕ → Db → String → String → Option Transition → Handled
unfolding record_api_read
plan_answer fails now db action reason none = quiet (ok_with (passed_over reason)) db
plan_answer fails now db action reason (some t) =
    quiet (ok_with (plan_recorded (tier_name t.tier) t.plan_state)) (
      if fails audit_call
      then db
      else record_api_read now db "billing:marketplace"
          ("account:" <> decimal t.purchase.account.id) action
          ("tier:" <> tier_name t.tier <> ",state:" <> t.plan_state))

unfoldable pub handle_marketplace_purchase :
    (Call → Bool) → ℕ → Db → Delivery → WebhookPayload → Handled
unfolding transition_of record_delivery_with_plan plan_answer
handle_marketplace_purchase fails now db delivery payload =
    let action = get_or_else payload.action "" in
    let reason = "marketplace_purchase:" <> action in
    let transition = transition_of payload in
    let (recorded, after) =
      record_delivery_with_plan now db delivery reason (Option.map plan_record transition) in
    elim recorded [
      | new ↦ plan_answer fails now after action reason transition
      | duplicate ↦ quiet (ok_with repeated) after
    ]
