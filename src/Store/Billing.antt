-- ===== src/Store/Billing.antt =====
-- Plans and accounts: `set_account_plan`, `record_delivery_with_plan`,
-- `record_installation_account`, `plan_for_installation`, `entitled_installation_tiers`,
-- `delete_installation_account`, `AccountPlan::entitled` and `tasks_created_since` of
-- crates/store/src/lib.rs.
pub mod Plans
use coven_github.Store.Deliveries.{delivery_row, seen}
use coven_github.Base.{
  ℕ, Bool, List, Option, String, [], count_where, delete_where, find, if◌then◌else◌, leb, ltb,
  nat_Eq, none, some, text_Eq, ◌&&◌, ◌<>◌, ◌==◌, ◌||◌, ◌∷◌,
}
use coven_github.Store.Schema.{
  Db, AccountPlan, Delivery, InstallationAccount, Recorded, TaskRow, duplicate, new,
}

-- state IN ('active', 'trial')
unfoldable pub entitled : AccountPlan → Bool
entitled p = p.state == "active" || p.state == "trial"

-- INSERT … ON CONFLICT(account_id) DO UPDATE: the row of the key, if there is one, is set.
unfoldable pub upsert_plan : AccountPlan → List AccountPlan → List AccountPlan
upsert_plan p [] = p ∷ []
upsert_plan p (q ∷ plans) =
    let rest = upsert_plan p plans in if q.account_id == p.account_id then p ∷ plans else q ∷ rest

abbrev pub stamped : ℕ → AccountPlan → AccountPlan
stamped now p = record p { updated_at = now }

unfoldable pub set_account_plan : ℕ → Db → AccountPlan → Db
set_account_plan now db p = record db { plans = upsert_plan (stamped now p) db.plans }

abbrev pub apply_plan : ℕ → Option AccountPlan → List AccountPlan → List AccountPlan
apply_plan now none plans = plans
apply_plan now (some p) plans = upsert_plan (stamped now p) plans

-- One transaction: the delivery and the plan, or neither.
unfoldable pub record_delivery_with_plan :
    ℕ → Db → Delivery → String → Option AccountPlan → Recorded × Db
record_delivery_with_plan now db d reason plan =
    if seen db d.delivery_id then (duplicate, db) else (
      new,
      record db {
        deliveries = delivery_row now d ("ignored:" <> reason) ∷ db.deliveries;
        plans = apply_plan now plan db.plans;
      },
    )

unfoldable pub upsert_account :
    InstallationAccount → List InstallationAccount → List InstallationAccount
upsert_account a [] = a ∷ []
upsert_account a (b ∷ accounts) =
    let rest = upsert_account a accounts in
    if b.installation_id == a.installation_id then a ∷ accounts else b ∷ rest

unfoldable pub record_installation_account : ℕ → Db → ℕ → ℕ → String → Db
record_installation_account now db installation account login = record db {
  accounts =
      upsert_account
        (record {
          installation_id = installation;
          account_id = account;
          account_login = login;
          updated_at = now;
        })
        db.accounts;
}

abbrev pub account_of : ℕ → InstallationAccount → Bool
account_of i a = a.installation_id == i

abbrev pub plan_of : ℕ → AccountPlan → Bool
plan_of account p = p.account_id == account

abbrev pub joined : List AccountPlan → Option InstallationAccount → Option AccountPlan
joined plans none = none
joined plans (some a) = find (plan_of a.account_id) plans

-- The account of the installation, joined to its plan. Both keys are primary.
unfoldable pub plan_for_installation : Db → ℕ → Option AccountPlan
plan_for_installation db i = joined db.plans (find (account_of i) db.accounts)

-- The tier of each installation whose plan is entitled.
unfoldable pub tiers_among : List AccountPlan → List InstallationAccount → List (ℕ × String)
tiers_among plans [] = []
tiers_among plans (a ∷ accounts) =
    let rest = tiers_among plans accounts in
    elim (find (plan_of a.account_id) plans) [
      | none ↦ rest
      | some p ↦ if entitled p then (a.installation_id, p.tier) ∷ rest else rest
    ]

unfoldable pub entitled_installation_tiers : Db → List (ℕ × String)
unfolding tiers_among entitled
entitled_installation_tiers db = tiers_among db.plans db.accounts

unfoldable pub delete_installation_account : Db → ℕ → Bool × Db
delete_installation_account db i = (
  ltb 0 (count_where (account_of i) db.accounts),
  record db { accounts = delete_where (account_of i) db.accounts },
)

unfoldable pub tasks_created_since : Db → ℕ → ℕ → ℕ
tasks_created_since db i cutoff =
    count_where (λ (t : TaskRow). t.installation_id == i && leb cutoff t.created_at) db.tasks
