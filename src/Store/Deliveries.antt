-- ===== src/Store/Deliveries.antt =====
-- Recording a delivery and enqueueing its task: `record_delivery`, `record_delivery_sync`,
-- `supersede_key` and `delivery_routing` of crates/store/src/lib.rs.
pub mod Once
pub mod Supersession
use coven_github.Base.{
  ℕ, String, ◌<>◌, Bool, false, ◌&&◌, Option, none, some, List, ◌∷◌, ◌==◌, if◌then◌else◌, any, find,
  decimal, update_where, nat_Eq, text_Eq,
}
use mathlib.Core.Option as Option
use coven_github.GitHub.{TaskKind, Task, review_pull_request}
use coven_github.Store.Schema.{
  Delivery, Routing, Recorded, new, duplicate, TaskState, DeliveryRow, TaskRow, Db, Result, ok, err,
  constraint, KindJson, is_queued, is_none,
}

unfoldable pub supersede_key_of : String → String → TaskKind → Option String
supersede_key_of owner name (review_pull_request n title reason) =
    some (owner <> "/" <> name <> "#" <> decimal n)
supersede_key_of owner name _ = none

-- PR reviews supersede by target PR; other kinds never do.
unfoldable pub supersede_key : Task → Option String
unfolding supersede_key_of
supersede_key t = supersede_key_of t.repo_owner t.repo_name t.kind

-- `column = key`, which is not true of a NULL column
abbrev pub holds_key : Option String → String → Bool
holds_key none key = false
holds_key (some k) key = k == key

-- A queued row of this key: the WHERE of both statements that tombstone.
abbrev pub queued_for : String → TaskRow → Bool
queued_for key r = holds_key r.supersede_key key && is_queued r.state

abbrev pub tombstoned : ℕ → TaskRow → TaskRow
tombstoned now r = record r { state = TaskState.superseded; updated_at = now }

unfoldable pub delivery_row : ℕ → Delivery → String → DeliveryRow
delivery_row now d label = record {
  delivery_id = d.delivery_id;
  event = d.event;
  action = d.action;
  installation_id = d.installation_id;
  repo = d.repo;
  payload_hash = d.payload_hash;
  routing = label;
  received_at = now;
}

abbrev pub seen : Db → String → Bool
seen db id = any (λ (r : DeliveryRow). r.delivery_id == id) db.deliveries

abbrev pub has_task : String → List TaskRow → Bool
has_task id = any (λ (r : TaskRow). r.id == id)

-- Only a task with no commander tombstones the queued rows of its key.
unfoldable pub tombstone_older : ℕ → Task → List TaskRow → List TaskRow
tombstone_older now t rows =
    if is_none t.commander
    then elim (supersede_key t) [
      | none ↦ rows
      | some key ↦ update_where (queued_for key) (tombstoned now) rows
    ]
    else rows

module _ (json : KindJson) where
  unfoldable pub task_row : ℕ → Delivery → Task → TaskRow
  task_row now d t = record {
    id = t.id;
    delivery_id = d.delivery_id;
    installation_id = t.installation_id;
    repo = t.repo_owner <> "/" <> t.repo_name;
    familiar_id = t.familiar_id;
    kind = json.to_string t.kind;
    commander = t.commander;
    state = TaskState.queued;
    supersede_key = supersede_key t;
    attempts = 0;
    branch = none;
    pr_number = none;
    check_run_url = none;
    summary = none;
    created_at = now;
    updated_at = now;
    result_status = none;
  }

  -- The transaction. A task id that is taken violates the primary key, and all is rolled back.
  unfoldable pub record_delivery_sync :
      ℕ → Db → Delivery → String → Option Task → Result Recorded × Db
  unfolding task_row tombstone_older delivery_row
  record_delivery_sync now db d label queued_task =
      if seen db d.delivery_id then (ok duplicate, db) else elim queued_task [
        | none ↦ (ok new, record db { deliveries = delivery_row now d label ∷ db.deliveries })
        | some t ↦ if has_task t.id db.tasks then (err constraint, db) else (
          ok new,
          record db {
            deliveries = delivery_row now d label ∷ db.deliveries;
            tasks = task_row now d t ∷ tombstone_older now t db.tasks;
          },
        )
      ]

  unfoldable pub record_delivery : ℕ → Db → Delivery → Routing → Result Recorded × Db
  unfolding record_delivery_sync
  record_delivery now db d (Routing.task t) =
      record_delivery_sync now db d ("task:" <> t.id) (some t)
  record_delivery now db d (Routing.ignored reason) =
      record_delivery_sync now db d ("ignored:" <> reason) none

unfoldable pub delivery_routing : Db → String → Option String
delivery_routing db id =
    Option.map (λ (r : DeliveryRow). r.routing)
      (find (λ (r : DeliveryRow). r.delivery_id == id) db.deliveries)
