-- ===== src/Examples.antt =====
-- Concrete tables and inputs, and the theorems applied to them.
mod Queue
mod Tenants
mod Plans
mod Policy
mod Garden
mod Session
mod Findings
mod Intake
mod Api
mod Comments
mod Runs
mod Pipeline
mod Quota
use coven_github.GitHub.{review_pull_request, garden_run, TaskKind, Task}
use coven_github.Store.Runs.{claim, run, deliver, Op}
use coven_github.Store.Validity.{IsValid}
use coven_github.Store.Runs.Invariant.{run-IsValid, empty-IsValid, IsOwned}
use coven_github.Store.Queue.{Caps}
use coven_github.Base.{
  ℕ, All, List, String, [], if◌then◌else◌, nat_Eq, none, refl, some, text_Eq, ◌==◌, ◌∷◌,
}
use coven_github.Store.Schema.{Db, Delivery, KindJson, Routing, empty}

-- A codec of two kinds of tasks.
abbrev pub sample_to_string : TaskKind → String
sample_to_string (garden_run report) = "garden_run"
sample_to_string (review_pull_request n title reason) = "review"
sample_to_string _ = "other"

abbrev pub sample_json : KindJson
sample_json = record {
  to_string = sample_to_string;
  from_str = λ s.
      if s == "garden_run"
      then some (garden_run none)
      else if s == "review"
      then some (review_pull_request 5 "Fix" "opened")
      else none;
  kind_tag = λ s. some s;
}

abbrev pub review : Task
review = record {
  id = "t1";
  installation_id = 7;
  repo_owner = "acme";
  repo_name = "api";
  kind = review_pull_request 5 "Fix" "opened";
  familiar_id = "cody";
  commander = none;
}

abbrev pub second_review : Task
second_review = record review { id = "t2" }

abbrev pub commanded : Task
commanded = record review { id = "t3"; commander = some "ann" }

abbrev pub garden : Task
garden = record review { id = "t4"; installation_id = 8; kind = garden_run none }

abbrev pub delivery : String → ℕ → Delivery
delivery id i = record {
  delivery_id = id;
  event = "pull_request";
  action = some "opened";
  installation_id = some i;
  repo = some "acme/api";
  payload_hash = "00";
}

abbrev pub caps : Caps
caps = (7, 1) ∷ (8, 2) ∷ []

-- Two tenants: a review runs, and a gardener run waits.
abbrev pub ops : List (ℕ × Op)
ops =
    (10, deliver (delivery "d1" 7) (Routing.task review))
    ∷ (11, claim)
    ∷ (12, deliver (delivery "d2" 8) (Routing.task garden))
    ∷ []

abbrev pub owned : All (λ (o : ℕ × Op). IsOwned o.1) ops
owned = (refl, (tt, (refl, tt)))

abbrev pub tables : Db
tables = run sample_json caps ops empty

pub tables-IsValid : IsValid tables
tables-IsValid = run-IsValid sample_json caps ops empty owned empty-IsValid
