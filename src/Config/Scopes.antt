-- ===== src/Config/Scopes.antt =====
-- Routing scopes: `scope_for`, `routing_view` and `RoutingScope` of crates/config/src/lib.rs.
pub mod Access
use coven_github.Base.{
  ℕ, Bool, List, Option, String, [], any, contains, false, find, if◌then◌else◌, is_empty, map,
  nat_Eq, none, select_where, some, text_Eq, true, ◌==◌, ◌∷◌,
}
use coven_github.Config.{
  Config, FamiliarConfig, InstallationConfig, RepoRoutingOverride, TriggerPolicy, installation_of,
}

pub record RoutingScope : Type 0 where
  pub familiars : List FamiliarConfig
  pub triggers : TriggerPolicy

pub record RoutingView : Type 0 where
  pub installation_id : ℕ
  pub account : Option String
  pub familiars : List String
  pub triggers : TriggerPolicy
  pub repos : List (String × RepoRoutingOverride)
  pub listed : Bool

abbrev pub all_lanes : Bool → TriggerPolicy
all_lanes b = record { assignment = b; labels = b; commands = b; reviews = b }

unfoldable pub closed_scope : RoutingScope
closed_scope = record { familiars = []; triggers = all_lanes false }

unfoldable pub familiar_by_bot : RoutingScope → String → Option FamiliarConfig
familiar_by_bot s login = find (λ (f : FamiliarConfig). f.bot_username == login) s.familiars

unfoldable pub familiar_by_label : RoutingScope → String → Option FamiliarConfig
familiar_by_label s label =
    find (λ (f : FamiliarConfig). any (λ (l : String). l == label) f.trigger_labels) s.familiars

unfoldable pub familiar_by_id : RoutingScope → String → Option FamiliarConfig
familiar_by_id s id = find (λ (f : FamiliarConfig). f.id == id) s.familiars

unfoldable pub override_of :
    String → List (String × RepoRoutingOverride) → Option RepoRoutingOverride
override_of repo [] = none
override_of repo ((key, o) ∷ repos) = if key == repo then some o else override_of repo repos

abbrev pub unwrap_or : Option Bool → Bool → Bool
unwrap_or none b = b
unwrap_or (some b) _ = b

abbrev pub is_off : Option Bool → Bool
is_off (some false) = true
is_off _ = false

-- The installation's lanes under a repository's override.
unfoldable pub narrowed : Option RepoRoutingOverride → TriggerPolicy → TriggerPolicy
narrowed none triggers = triggers
narrowed (some o) triggers = if is_off o.enabled then all_lanes false else record {
  assignment = unwrap_or o.assignment triggers.assignment;
  labels = unwrap_or o.labels triggers.labels;
  commands = unwrap_or o.commands triggers.commands;
  reviews = unwrap_or o.reviews triggers.reviews;
}

unfoldable pub allowed_familiars : List FamiliarConfig → InstallationConfig → List FamiliarConfig
allowed_familiars familiars x =
    if is_empty x.familiars
    then familiars
    else select_where (λ (f : FamiliarConfig). contains f.id x.familiars) familiars

abbrev pub scope_of : List FamiliarConfig → String → Option InstallationConfig → RoutingScope
scope_of familiars repo none = closed_scope
scope_of familiars repo (some x) = record {
  familiars = allowed_familiars familiars x;
  triggers = narrowed (override_of repo x.repos) x.triggers;
}

unfoldable pub scope_for : Config → ℕ → String → RoutingScope
unfolding allowed_familiars narrowed closed_scope
scope_for cfg i repo =
    if is_empty cfg.installations
    then record { familiars = cfg.familiars; triggers = all_lanes true }
    else scope_of cfg.familiars repo (installation_of i cfg.installations)

abbrev pub ids : List FamiliarConfig → List String
ids familiars = map (λ (f : FamiliarConfig). f.id) familiars

-- The view filters the ids, where the scope filters the familiars.
unfoldable pub allowed_ids : List FamiliarConfig → InstallationConfig → List String
allowed_ids familiars x =
    if is_empty x.familiars
    then ids familiars
    else select_where (λ (id : String). contains id x.familiars) (ids familiars)

abbrev pub view_of : List FamiliarConfig → ℕ → Option InstallationConfig → RoutingView
view_of familiars i none = record {
  installation_id = i;
  account = none;
  familiars = [];
  triggers = all_lanes false;
  repos = [];
  listed = false;
}
view_of familiars i (some x) = record {
  installation_id = i;
  account = x.account;
  familiars = allowed_ids familiars x;
  triggers = x.triggers;
  repos = x.repos;
  listed = true;
}

unfoldable pub routing_view : Config → ℕ → RoutingView
unfolding allowed_ids
routing_view cfg i =
    if is_empty cfg.installations
    then record {
      installation_id = i;
      account = none;
      familiars = ids cfg.familiars;
      triggers = all_lanes true;
      repos = [];
      listed = false;
    }
    else view_of cfg.familiars i (installation_of i cfg.installations)
