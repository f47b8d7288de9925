-- ===== src/Store/Schema.antt =====
-- The tables of crates/store/src/lib.rs (`migrate`) and the store's own types. A table is the list
-- of its rows, newest first; a timestamp is a number, of which the program only uses the order.
use coven_github.Base.{ℕ, String, Bool, true, false, Option, none, some, List, []}
use coven_github.GitHub.{TaskKind, Task}

pub record Delivery : Type 0 where
  pub delivery_id : String
  pub event : String
  pub action : Option String
  pub installation_id : Option ℕ
  pub repo : Option String
  pub payload_hash : String

pub data Routing : Type 0 where
  task : Task → Routing
  ignored : String → Routing

pub data Recorded : Type 0 where
  new duplicate : Recorded

-- The texts that the `state` column of `tasks` holds.
pub data TaskState : Type 0 where
  queued running completed failed superseded : TaskState

pub data TerminalState : Type 0 where
  completed failed superseded : TerminalState

pub record Terminal : Type 0 where
  pub state : TerminalState
  pub result_status : Option String
  pub branch : Option String
  pub pr_number : Option ℕ
  pub summary : Option String
  pub detail : Option String

-- webhook_deliveries
pub record DeliveryRow : Type 0 where
  pub delivery_id : String
  pub event : String
  pub action : Option String
  pub installation_id : Option ℕ
  pub repo : Option String
  pub payload_hash : String
  pub routing : String
  pub received_at : ℕ

-- tasks; `kind` is the JSON text of the task's kind
pub record TaskRow : Type 0 where
  pub id : String
  pub delivery_id : String
  pub installation_id : ℕ
  pub repo : String
  pub familiar_id : String
  pub kind : String
  pub commander : Option String
  pub state : TaskState
  pub supersede_key : Option String
  pub attempts : ℕ
  pub branch : Option String
  pub pr_number : Option ℕ
  pub check_run_url : Option String
  pub summary : Option String
  pub created_at : ℕ
  pub updated_at : ℕ
  pub result_status : Option String

-- task_attempts
pub record AttemptRow : Type 0 where
  pub task_id : String
  pub attempt : ℕ
  pub started_at : ℕ
  pub ended_at : Option ℕ
  pub outcome : Option String
  pub detail : Option String

-- api_audit
pub record AuditRow : Type 0 where
  pub at : ℕ
  pub caller : String
  pub scope : String
  pub action : String
  pub result : String

-- memory_activity, and the row that is listed
pub record MemoryActivity : Type 0 where
  pub at : ℕ
  pub installation_id : ℕ
  pub repo : String
  pub task_id : String
  pub op : String
  pub target : String
  pub scope : String
  pub outcome : String

-- memory_revocations
pub record RevocationRow : Type 0 where
  pub at : ℕ
  pub installation_id : ℕ
  pub repo : String
  pub target : String

-- account_plans, and the plan that is looked up
pub record AccountPlan : Type 0 where
  pub account_id : ℕ
  pub account_login : String
  pub plan_name : String
  pub tier : String
  pub state : String
  pub source : String
  pub updated_at : ℕ

-- installation_accounts
pub record InstallationAccount : Type 0 where
  pub installation_id : ℕ
  pub account_id : ℕ
  pub account_login : String
  pub updated_at : ℕ

pub record Db : Type 0 where
  pub deliveries : List DeliveryRow
  pub tasks : List TaskRow
  pub attempts : List AttemptRow
  pub audit : List AuditRow
  pub memory : List MemoryActivity
  pub revocations : List RevocationRow
  pub plans : List AccountPlan
  pub accounts : List InstallationAccount

-- The tables after every migration.
abbrev pub empty : Db
empty = record {
  deliveries = [];
  tasks = [];
  attempts = [];
  audit = [];
  memory = [];
  revocations = [];
  plans = [];
  accounts = [];
}

-- A constraint of the schema that a statement or a commit violates, and a stored kind that does not
-- parse.
pub data StoreError : Type 0 where
  constraint unreadable_kind : StoreError

pub data Result {ℓ} (A : Type ℓ) : Type ℓ where
  ok : A → Result A
  err : StoreError → Result A

-- serde_json on `TaskKind`, and SQLite's json_extract(kind, '$.kind').
pub record KindJson : Type 0 where
  pub to_string : TaskKind → String
  pub from_str : String → Option TaskKind
  pub kind_tag : String → Option String

abbrev pub is_queued : TaskState → Bool
is_queued TaskState.queued = true
is_queued _ = false

abbrev pub is_running : TaskState → Bool
is_running TaskState.running = true
is_running _ = false

-- state IN ('completed','failed','superseded')
abbrev pub is_terminal : TaskState → Bool
is_terminal TaskState.queued = false
is_terminal TaskState.running = false
is_terminal _ = true

abbrev pub is_none {ℓ} : {A : Type ℓ} → Option A → Bool
is_none none = true
is_none (some x) = false
