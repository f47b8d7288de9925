-- ===== src/Store/Retention.antt =====
-- What leaves the store: `delete_tasks_for_installation` and `expire_terminal_tasks_before` of
-- crates/store/src/lib.rs. Both defer the foreign keys to the commit.
pub mod Tenancy
use coven_github.Base.{
  ℕ, Bool, List, Option, any, count_where, delete_where, every, false, if◌then◌else◌, ltb, nat_Eq,
  none, some, text_Eq, ◌&&◌, ◌+◌, ◌==◌,
}
use coven_github.Store.Schema.{
  Db, AttemptRow, DeliveryRow, Result, TaskRow, constraint, err, is_terminal, ok,
}
use coven_github.Store.Deliveries.{has_task}

-- PRAGMA foreign_keys = ON: every attempt has its task, and every task its delivery.
unfoldable pub fk_holds : Db → Bool
fk_holds db =
    every (λ (a : AttemptRow). has_task a.task_id db.tasks) db.attempts
    && every
        (λ (t : TaskRow). any (λ (d : DeliveryRow). d.delivery_id == t.delivery_id) db.deliveries)
        db.tasks

-- A commit: the transaction's tables, or those from before it.
unfoldable pub commit : Db → Db → ℕ → Result ℕ × Db
commit before after n = if fk_holds after then (ok n, after) else (err constraint, before)

abbrev pub task_of_installation : ℕ → TaskRow → Bool
task_of_installation i t = t.installation_id == i

abbrev pub is_number : Option ℕ → ℕ → Bool
is_number none i = false
is_number (some j) i = j == i

abbrev pub delivery_of_installation : ℕ → DeliveryRow → Bool
delivery_of_installation i d = is_number d.installation_id i

-- task_id IN (SELECT id FROM tasks WHERE …)
abbrev pub attempt_of : (TaskRow → Bool) → List TaskRow → AttemptRow → Bool
attempt_of p tasks a = any (λ (t : TaskRow). t.id == a.task_id && p t) tasks

unfoldable pub purged : ℕ → Db → Db
purged i db = record db {
  attempts = delete_where (attempt_of (task_of_installation i) db.tasks) db.attempts;
  tasks = delete_where (task_of_installation i) db.tasks;
  deliveries = delete_where (delivery_of_installation i) db.deliveries;
}

unfoldable pub delete_tasks_for_installation : Db → ℕ → Result ℕ × Db
unfolding purged commit
delete_tasks_for_installation db i = commit db (purged i db) (
    count_where (attempt_of (task_of_installation i) db.tasks) db.attempts
    + count_where (task_of_installation i) db.tasks
    + count_where (delivery_of_installation i) db.deliveries)

-- state IN ('completed','failed','superseded') AND updated_at < ?1
abbrev pub expiring : ℕ → TaskRow → Bool
expiring cutoff t = is_terminal t.state && ltb t.updated_at cutoff

unfoldable pub expired : ℕ → Db → Db
expired cutoff db = record db {
  attempts = delete_where (attempt_of (expiring cutoff) db.tasks) db.attempts;
  tasks = delete_where (expiring cutoff) db.tasks;
}

unfoldable pub expire_terminal_tasks_before : Db → ℕ → Result ℕ × Db
unfolding expired commit
expire_terminal_tasks_before db cutoff = commit db (expired cutoff db) (
    count_where (attempt_of (expiring cutoff) db.tasks) db.attempts
    + count_where (expiring cutoff) db.tasks)
