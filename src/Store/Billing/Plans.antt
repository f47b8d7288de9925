-- ===== src/Store/Billing/Plans.antt =====
-- Which plan an installation has (crates/store/src/lib.rs).
use coven_github.Store.Retention.{is_number}
use coven_github.Store.Deliveries.{seen}
use coven_github.Store.Billing.{
  stamped, plan_of, plan_for_installation, upsert_plan, upsert_account, record_delivery_with_plan,
  account_of, delete_installation_account, record_installation_account, joined,
}
use mathlib.Core.Option as Option
use coven_github.Base.{
  ℕ, List, Option, String, [], arith, find, if◌then◌else◌, nat_Eq, refl, some, text_Eq, ◌==◌, ◌∷◌,
  ◌≡◌, Bool-cases, Option-cases, inl, inr, none, not, ◌&&◌, Bool, delete_where, false, true, ap,
  ◌∙◌,
}
use coven_github.Store.Schema.{Db, AccountPlan, Delivery, InstallationAccount, duplicate, new}

find-upsert_plan :
    (p : AccountPlan) (i : ℕ) (plans : List AccountPlan)
    → find (plan_of i) (upsert_plan p plans)
      ≡ (if p.account_id == i then some p else find (plan_of i) plans)
unfolding upsert_plan
find-upsert_plan p i [] = refl
find-upsert_plan p i (q ∷ plans) = ground (arith, find-upsert_plan p i plans)

find-upsert_account :
    (a : InstallationAccount) (i : ℕ) (accounts : List InstallationAccount)
    → find (account_of i) (upsert_account a accounts)
      ≡ (if a.installation_id == i then some a else find (account_of i) accounts)
unfolding upsert_account
find-upsert_account a i [] = refl
find-upsert_account a i (b ∷ accounts) = ground (arith, find-upsert_account a i accounts)

-- The account behind an installation, if it is known.
abbrev pub account_behind : Db → ℕ → Option ℕ
account_behind db i =
    Option.map (λ (a : InstallationAccount). a.account_id) (find (account_of i) db.accounts)

plan_by_account :
    (db : Db) (i : ℕ)
    → plan_for_installation db i
      ≡ elim (account_behind db i) [ none ↦ none | some a ↦ find (plan_of a) db.plans ]
unfolding plan_for_installation
plan_by_account db i = elim (Option-cases (find (account_of i) db.accounts)) [
  | inl e ↦ rw (e, plan_for_installation)
  | inr (a, e) ↦ rw (e, plan_for_installation)
]

plan_of_account :
    (db : Db) (i a : ℕ)
    → account_behind db i ≡ some a
    → plan_for_installation db i ≡ find (plan_of a) db.plans
plan_of_account db i a q = rw plan_by_account (rw q)

-- After a purchase delivery an installation has the purchased plan, stamped with the time, if the
-- delivery is new and the installation's account made the purchase; otherwise it has the plan that
-- it had. A delivery that was seen answers `duplicate`, and any other `new`.
pub purchase_lem :
    (now : ℕ) (db : Db) (d : Delivery) (reason : String) (p : AccountPlan) (i : ℕ)
    → let (outcome, after) = record_delivery_with_plan now db d reason (some p) in
      (outcome ≡ (if seen db d.delivery_id then duplicate else new))
      × (plan_for_installation after i ≡ (
          if not (seen db d.delivery_id) && is_number (account_behind db i) p.account_id
          then some (stamped now p)
          else plan_for_installation db i))
unfolding record_delivery_with_plan
purchase_lem now db d reason p i = elim (Bool-cases (seen db d.delivery_id)) [
  | inl e ↦ rw e (refl, refl)
  | inr e ↦ rw e (
    refl,
    rw plan_by_account (elim (Option-cases (account_behind db i)) [
      | inl q ↦ rw (q, plan_by_account db i) (rw q)
      | inr (a, q) ↦ rw (q, find-upsert_plan) (ground (arith, plan_of_account db i a q))
    ]),
  )
]

joined-if :
    (plans : List AccountPlan) (b : Bool) (x y : Option InstallationAccount)
    → joined plans (if b then x else y) ≡ (if b then joined plans x else joined plans y)
joined-if plans true x y = refl
joined-if plans false x y = refl

-- Once an installation is recorded under an account it has the account's plan, and no other
-- installation's plan changes.
pub plan-record_installation_account :
    (now : ℕ) (db : Db) (i j account : ℕ) (login : String)
    → plan_for_installation (record_installation_account now db i account login) j
      ≡ (if i == j then find (plan_of account) db.plans else plan_for_installation db j)
unfolding record_installation_account plan_for_installation
plan-record_installation_account now db i j account login =
    ap (joined db.plans) (find-upsert_account _ j db.accounts) ∙ joined-if db.plans (i == j) _ _

-- What is found among the rows that a deletion by key leaves.
find-delete_account :
    (i j : ℕ) (accounts : List InstallationAccount)
    → find (account_of j) (delete_where (account_of i) accounts)
      ≡ (if i == j then none else find (account_of j) accounts)
unfolding delete_where
find-delete_account i j [] = ground arith
find-delete_account i j (a ∷ accounts) = ground (arith, find-delete_account i j accounts)

-- An installation whose account is forgotten has no plan; every other installation keeps its own.
pub plan-delete_installation_account :
    (db : Db) (i j : ℕ)
    → plan_for_installation (delete_installation_account db i).1 j
      ≡ (if i == j then none else plan_for_installation db j)
unfolding delete_installation_account plan_for_installation
plan-delete_installation_account db i j =
    ap (joined db.plans) (find-delete_account i j db.accounts) ∙ joined-if db.plans (i == j) _ _
