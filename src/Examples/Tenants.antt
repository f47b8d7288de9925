-- ===== src/Examples/Tenants.antt =====
-- The theorems on what tenants share and do not, applied (crates/store/src/lib.rs).
use coven_github.Store.Retention.Tenancy.{
  expire_keeps_in_flight, delete_tasks_isolates, attempts_of,
}
use coven_github.Store.Retention.{
  task_of_installation, expire_terminal_tasks_before, delete_tasks_for_installation,
}
use coven_github.Store.Memory.Governance.{delete_memory_lem}
use coven_github.Store.Schema.{
  empty, constraint, is_terminal, err, TaskRow, MemoryActivity, DeliveryRow, Db,
}
use coven_github.Store.Memory.{
  revocations_for, record_memory_activity, list_memory, record_revocation,
  delete_memory_for_installation, ApiScope,
}
use coven_github.Base.{
  ℕ, All, [], arith, if◌then◌else◌, leb, nat_Eq, none, not, select_where, some, text_Eq, true, ◌==◌,
  ◌||◌, ◌∷◌, ◌≡◌, ◌≢◌,
}
use coven_github.Examples.{tables, tables-IsValid}

delete_tasks_isolates_example :
    let (outcome, after) = delete_tasks_for_installation tables 7 in
    (outcome ≢ err constraint)
    × All (λ (t : TaskRow). t.installation_id ≢ 7) after.tasks
    × All (λ (d : DeliveryRow). d.installation_id ≢ some 7) after.deliveries
    × (select_where (task_of_installation 8) after.tasks
        ≡ select_where (task_of_installation 8) tables.tasks)
    × All
        (λ (t : TaskRow). attempts_of t.id after ≡ attempts_of t.id tables)
        (select_where (task_of_installation 8) tables.tasks)
delete_tasks_isolates_example =
    delete_tasks_isolates tables 7 8 tables-IsValid (λ e. omega (arith, e))

expire_keeps_in_flight_example :
    let (outcome, after) = expire_terminal_tasks_before tables 11 in
    let kept = λ (t : TaskRow). not (is_terminal t.state) || leb 11 t.updated_at in
    (outcome ≢ err constraint)
    × (select_where kept after.tasks ≡ select_where kept tables.tasks)
    × All (λ (t : TaskRow). kept t ≡ true) after.tasks
    × All
        (λ (t : TaskRow). attempts_of t.id after ≡ attempts_of t.id tables)
        (select_where kept tables.tasks)
expire_keeps_in_flight_example = expire_keeps_in_flight tables 11 tables-IsValid

abbrev tenant : ApiScope
tenant = record { installation_id = 7; repos = some ("acme/api" ∷ []) }

abbrev activity : ℕ → MemoryActivity
activity i = record {
  at = 5;
  installation_id = i;
  repo = "acme/api";
  task_id = "t1";
  op = "read";
  target = "repo/acme/api/x";
  scope = "repo";
  outcome = "accepted";
}

abbrev with_memory : Db
with_memory =
    record_revocation 3
      (record_memory_activity 5 empty ((none, activity 7) ∷ (some 2, activity 8) ∷ [])) 7 "acme/api"
      "repo/acme/api/x"

delete_memory_lem_example :
    let after = (delete_memory_for_installation with_memory 7).1 in
    (list_memory after (some tenant)
      ≡ (if 7 == tenant.installation_id then [] else list_memory with_memory (some tenant)))
    × (revocations_for after tenant.installation_id "acme/api" ≡ (
        if 7 == tenant.installation_id
        then []
        else revocations_for with_memory tenant.installation_id "acme/api"))
delete_memory_lem_example = delete_memory_lem with_memory 7 tenant "acme/api"
