-- ===== src/Store/Validity.antt =====
-- The well-formedness of the store's tables, which every operation of crates/store/src/lib.rs keeps:
-- the keys, the references between the tables, and the attempts of each task.
pub mod Recording
pub mod Claiming
pub mod Finishing
pub mod Removing
use coven_github.Base.{
  All, Bool, Cross, Distinct, List, String, any, nat_Eq, none, some, text_Eq, true, ◌==◌, ◌≡◌, ◌≤◌,
}
use coven_github.Store.Schema.{Db, AttemptRow, DeliveryRow, TaskRow, TaskState}
use coven_github.Store.Deliveries.{has_task}

-- An attempt is one that its task has counted, and is open only while its task runs.
abbrev pub Fits : TaskRow → AttemptRow → Type 0
Fits t a =
    a.task_id ≡ t.id → (a.attempt ≤ t.attempts) × (a.ended_at ≡ none → t.state ≡ TaskState.running)

-- The delivery that a task came with is of the task's installation.
abbrev pub Owns : TaskRow → DeliveryRow → Type 0
Owns t d = d.delivery_id ≡ t.delivery_id → d.installation_id ≡ some t.installation_id

abbrev pub has_delivery : String → List DeliveryRow → Bool
has_delivery id = any (λ (r : DeliveryRow). r.delivery_id == id)

pub record IsValid (db : Db) : Type 0 where
  pub distinct_deliveries : Distinct (λ (r : DeliveryRow). r.delivery_id) db.deliveries
  pub distinct_tasks : Distinct (λ (r : TaskRow). r.id) db.tasks
  pub attempts_fit : Cross Fits db.tasks db.attempts
  pub owners : Cross Owns db.tasks db.deliveries
  pub task_of_attempt : All (λ (a : AttemptRow). has_task a.task_id db.tasks ≡ true) db.attempts
  pub delivery_of_task :
      All (λ (t : TaskRow). has_delivery t.delivery_id db.deliveries ≡ true) db.tasks
