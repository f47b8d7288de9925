-- ===== src/Config.antt =====
-- The configuration (crates/config/src/lib.rs): its types, and the limits of plans and installations.
pub mod Scopes
pub mod Review
pub mod Api
pub mod Gardener
pub mod Memory
use coven_github.Config.Gardener.{GardenerConfig}
use coven_github.Config.Review.{ReviewConfig}
use coven_github.Config.Api.{ApiConfig}
use coven_github.Base.{
  ℕ, String, List, Option, none, some, Bool, [], any, find, if◌then◌else◌, nat_Eq, text_Eq, ◌==◌,
  ◌∷◌, contains_text, to_ascii_lowercase,
}

pub record FamiliarConfig : Type 0 where
  pub id : String
  pub display_name : String
  pub bot_username : String
  pub model : Option String
  pub skills : List String
  pub trigger_labels : List String

pub record InstallationLimits : Type 0 where
  pub max_concurrent : Option ℕ
  pub max_tasks_per_day : Option ℕ

pub record TriggerPolicy : Type 0 where
  pub assignment : Bool
  pub labels : Bool
  pub commands : Bool
  pub reviews : Bool

pub record RepoRoutingOverride : Type 0 where
  pub enabled : Option Bool
  pub assignment : Option Bool
  pub labels : Option Bool
  pub commands : Option Bool
  pub reviews : Option Bool

-- A map keyed by the repository is a list of pairs, searched from its start.
pub record InstallationConfig : Type 0 where
  pub id : ℕ
  pub account : Option String
  pub familiars : List String
  pub triggers : TriggerPolicy
  pub limits : InstallationLimits
  pub repos : List (String × RepoRoutingOverride)

-- What routing, billing and the API read of the configuration.
pub record Config : Type 0 where
  pub familiars : List FamiliarConfig
  pub installations : List InstallationConfig
  pub review : ReviewConfig
  pub api : ApiConfig
  pub require_plan : Bool
  pub webhook_secret : String
  pub gardener : GardenerConfig

pub data PlanTier : Type 0 where
  starter : PlanTier
  team : PlanTier
  dedicated : PlanTier
  unknown : PlanTier

unfoldable pub tier_of : String → PlanTier
tier_of s =
    if s == "starter"
    then PlanTier.starter
    else if s == "team"
    then PlanTier.team
    else if s == "dedicated"
    then PlanTier.dedicated
    else PlanTier.unknown

-- `PlanTier::parse` of a plan's name
unfoldable pub tier_parse : String → PlanTier
tier_parse name =
    let n = to_ascii_lowercase name in
    if contains_text "starter" n
    then PlanTier.starter
    else if contains_text "team" n
    then PlanTier.team
    else if contains_text "dedicated" n
    then PlanTier.dedicated
    else PlanTier.unknown

unfoldable pub tier_name : PlanTier → String
tier_name PlanTier.starter = "starter"
tier_name PlanTier.team = "team"
tier_name PlanTier.dedicated = "dedicated"
tier_name PlanTier.unknown = "unknown"

abbrev pub unlimited : InstallationLimits
unlimited = record { max_concurrent = none; max_tasks_per_day = none }

unfoldable pub tier_limits : PlanTier → InstallationLimits
tier_limits PlanTier.starter = record { max_concurrent = some 1; max_tasks_per_day = some 25 }
tier_limits PlanTier.unknown = record { max_concurrent = some 1; max_tasks_per_day = some 25 }
tier_limits PlanTier.team = record { max_concurrent = some 4; max_tasks_per_day = some 150 }
tier_limits PlanTier.dedicated = unlimited

abbrev pub or_else : Option ℕ → Option ℕ → Option ℕ
or_else none other = other
or_else (some n) other = some n

abbrev pub limits_of : Option PlanTier → InstallationLimits
limits_of none = unlimited
limits_of (some tier) = tier_limits tier

unfoldable pub effective_limits : InstallationLimits → Option PlanTier → InstallationLimits
effective_limits explicit plan = record {
  max_concurrent = or_else explicit.max_concurrent (limits_of plan).max_concurrent;
  max_tasks_per_day = or_else explicit.max_tasks_per_day (limits_of plan).max_tasks_per_day;
}

abbrev pub installation_of : ℕ → List InstallationConfig → Option InstallationConfig
installation_of i installations = find (λ (x : InstallationConfig). x.id == i) installations

abbrev pub limits_or : Option InstallationConfig → InstallationLimits
limits_or none = unlimited
limits_or (some x) = x.limits

unfoldable pub limits_for : Config → ℕ → InstallationLimits
limits_for cfg i = limits_or (installation_of i cfg.installations)

unfoldable pub installation_listed : Config → ℕ → Bool
installation_listed cfg i = any (λ (x : InstallationConfig). x.id == i) cfg.installations

-- `collect` into a map: a later pair takes the place of an earlier one of its key.
unfoldable pub put : ℕ → ℕ → List (ℕ × ℕ) → List (ℕ × ℕ)
put i n [] = (i, n) ∷ []
put i n ((j, m) ∷ pairs) = if j == i then (i, n) ∷ pairs else (j, m) ∷ put i n pairs

abbrev pub put_cap : InstallationConfig → List (ℕ × ℕ) → List (ℕ × ℕ)
put_cap x caps = elim x.limits.max_concurrent [ none ↦ caps | some cap ↦ put x.id cap caps ]

unfoldable pub collect_caps : List InstallationConfig → List (ℕ × ℕ) → List (ℕ × ℕ)
unfolding put
collect_caps [] caps = caps
collect_caps (x ∷ xs) caps = collect_caps xs (put_cap x caps)

unfoldable pub concurrency_caps : Config → List (ℕ × ℕ)
unfolding collect_caps
concurrency_caps cfg = collect_caps cfg.installations []
