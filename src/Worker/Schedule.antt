-- ===== src/Worker/Schedule.antt =====
-- Scheduled gardener runs: `enqueue_due_gardener_runs` of crates/worker/src/gardener_schedule.rs.
pub mod Once
use coven_github.Gardener.Schedule.{slot_id, parse_schedule}
use coven_github.Store.Deliveries.{record_delivery}
use coven_github.Config.Gardener.{gardener_policy}
use coven_github.GitHub.{Task, garden_run}
use coven_github.Store.Schema.{Routing, Result, Recorded, KindJson, Delivery, Db, err, ok}
use coven_github.Config.{InstallationConfig, FamiliarConfig, Config}
use coven_github.Base.{
  ℕ, Bool, Char, List, Option, String, [], any, code, decimal, false, find, if◌then◌else◌,
  is_ascii_alphanumeric, is_empty, nat_Eq, none, not, some, split_once, text_Eq, text_ltb,
  to_ascii_lowercase, true, ◌++◌, ◌+◌, ◌<>◌, ◌==◌, ◌>>=◌, ◌||◌, ◌∷◌,
}

lower_or_dash : Char → String
lower_or_dash c =
    if is_ascii_alphanumeric (code c) then to_ascii_lowercase (String.◌∷◌ c "") else "-"

unfoldable pub sanitize_id : String → String
unfolding lower_or_dash
sanitize_id String.[] = ""
sanitize_id (String.◌∷◌ c s) = lower_or_dash c <> sanitize_id s

unfoldable pub repo_matches_installation_account : String → InstallationConfig → Bool
repo_matches_installation_account repo x = elim x.account [
  | none ↦ true
  | some account ↦ elim (split_once b'/' repo) [
    | none ↦ false
    | some (owner, name) ↦ owner == account
  ]
]

abbrev first_id : List FamiliarConfig → Option String
first_id [] = none
first_id (f ∷ familiars) = some f.id

unfoldable pub scheduled_familiar_id : Config → InstallationConfig → Option String
scheduled_familiar_id cfg x =
    if is_empty x.familiars
    then first_id cfg.familiars
    else find (λ (id : String). any (λ (f : FamiliarConfig). f.id == id) cfg.familiars) x.familiars

abbrev pub keys_of {ℓ} : {A : Type ℓ} → List (String × A) → List String
keys_of [] = []
keys_of ((k, a) ∷ pairs) = k ∷ keys_of pairs

-- A BTreeSet of texts: in order, each once.
unfoldable pub insert_text : String → List String → List String
insert_text k [] = k ∷ []
insert_text k (j ∷ keys) =
    let rest = insert_text k keys in
    if k == j then j ∷ keys else if text_ltb k j then k ∷ j ∷ keys else j ∷ rest

unfoldable pub collect_texts : List String → List String
unfolding insert_text
collect_texts [] = []
collect_texts (k ∷ keys) = insert_text k (collect_texts keys)

unfoldable pub scheduled_repo_candidates : Config → InstallationConfig → List String
unfolding collect_texts
scheduled_repo_candidates cfg x = collect_texts (keys_of cfg.gardener.repos ++ keys_of x.repos)

abbrev pub due_task : ℕ → String → String → String → String → String → Task
due_task i repo owner name familiar_id slot = record {
  id = "garden-" <> decimal i <> "-" <> sanitize_id repo <> "-" <> sanitize_id slot;
  installation_id = i;
  repo_owner = owner;
  repo_name = name;
  kind = garden_run none;
  familiar_id = familiar_id;
  commander = none;
}

abbrev pub due_delivery : ℕ → ℕ → String → String → Delivery
due_delivery minutes i repo slot = record {
  delivery_id = "schedule:garden:" <> decimal i <> ":" <> repo <> ":" <> slot;
  event = "schedule";
  action = some "gardener";
  installation_id = some i;
  repo = some repo;
  payload_hash = "garden:" <> decimal minutes;
}

-- The body of the inner loop, up to the record: none where it continues.
unfoldable pub due_run :
    Config → ℕ → InstallationConfig → String → String → Option (Delivery × Task)
unfolding repo_matches_installation_account gardener_policy parse_schedule slot_id sanitize_id
due_run cfg minutes x familiar_id repo =
    let policy = gardener_policy cfg.gardener repo in
    if not (repo_matches_installation_account repo x) || not policy.enabled then none else do
      schedule ← parse_schedule policy.schedule
      slot ← slot_id schedule minutes
      parts ← split_once b'/' repo
      some
          (due_delivery minutes x.id repo slot, due_task x.id repo parts.0 parts.1 familiar_id slot)

abbrev pub collect_some {ℓ κ} : {A : Type ℓ} {B : Type κ} → (A → Option B) → List A → List B
collect_some f [] = []
collect_some f (x ∷ xs) = elim (f x) [ none ↦ collect_some f xs | some y ↦ y ∷ collect_some f xs ]

unfoldable pub due_runs_of : Config → ℕ → InstallationConfig → List (Delivery × Task)
unfolding scheduled_familiar_id scheduled_repo_candidates due_run
due_runs_of cfg minutes x = elim (scheduled_familiar_id cfg x) [
  | none ↦ []
  | some id ↦ collect_some (due_run cfg minutes x id) (scheduled_repo_candidates cfg x)
]

unfoldable pub due_runs : Config → ℕ → List InstallationConfig → List (Delivery × Task)
unfolding due_runs_of
due_runs cfg minutes [] = []
due_runs cfg minutes (x ∷ xs) = due_runs_of cfg minutes x ++ due_runs cfg minutes xs

abbrev pub one_more : Recorded → ℕ
one_more Recorded.new = 1
one_more Recorded.duplicate = 0

abbrev pub plus_count : ℕ → (Result ℕ × Db) → Result ℕ × Db
plus_count n (ok m, db) = (ok (n + m), db)
plus_count n (err e, db) = (err e, db)

module _ (json : KindJson) where
  -- The record of each due run, in the order of the loops; an error ends them.
  unfoldable pub enqueue_all : ℕ → Db → List (Delivery × Task) → Result ℕ × Db
  unfolding record_delivery
  enqueue_all now db [] = (ok 0, db)
  enqueue_all now db ((d, t) ∷ runs) =
      let (recorded, after) = record_delivery json now db d (Routing.task t) in
      let rest = enqueue_all now after runs in
      elim recorded [ err e ↦ (err e, after) | ok r ↦ plus_count (one_more r) rest ]

  unfoldable pub enqueue_due_gardener_runs : ℕ → Config → Db → ℕ → Result ℕ × Db
  unfolding due_runs enqueue_all
  enqueue_due_gardener_runs now cfg db minutes =
      enqueue_all now db (due_runs cfg minutes cfg.installations)
