-- ===== src/Store/Runs/Concurrency.antt =====
-- No sequence of operations runs more tasks of an installation than its cap
-- (crates/store/src/lib.rs).
use native.Mathlib.Nat.{le_trans}
use coven_github.Store.Validity.Recording.{tombstone_cases}
use coven_github.Store.Deliveries.{
  queued_for, has_task, tombstoned, tombstone_older, task_row, seen, record_delivery_sync,
  record_delivery,
}
use coven_github.Store.Retention.{
  task_of_installation, expiring, purged, fk_holds, expired, expire_terminal_tasks_before,
  delete_tasks_for_installation, commit,
}
use coven_github.Store.Queue.Caps.{
  runs_for, running_of, running_of-update_where, running_of-delete_where, claim_next_cap,
}
use coven_github.GitHub.{Task}
use coven_github.Store.Runs.{
  expire, uninstall, supersede_except, cancel, recover, set_url, complete, deliver, step, run, Op,
  claim,
}
use coven_github.Store.Validity.{IsValid}
use coven_github.Store.Runs.Invariant.{step-IsValid, IsOwned}
use coven_github.Store.Schema.{Terminal, TaskRow, Routing, KindJson, Delivery, Db}
use coven_github.Store.Queue.{
  requeued, running_row, supersede_queued_except, given_up, cancel_queued, superseding,
  set_check_run_url, has_id, finished, exhausted, supersede_queued, state_of, recover_interrupted,
  finish, Caps, cap_of,
}
use coven_github.Base.{
  ℕ, All, Bool-cases, List, Option, Option-cases, String, [], arith, count_where, inl, inr, none,
  some, true, update_where, ◌∷◌, ◌≡◌, ◌≤◌, ◌<◌,
}

-- Every operation but a claim leaves no more tasks running than it found.
module _ (now i : ℕ) where
  tombstoned_quiet : (r : TaskRow) → runs_for i (tombstoned now r) ≡ true → runs_for i r ≡ true
  tombstoned_quiet r h = cc

  running_of-tombstone_older :
      (t : Task) (rows : List TaskRow)
      → running_of i (tombstone_older now t rows) ≤ running_of i rows
  running_of-tombstone_older t rows = elim (tombstone_cases now t rows) [
    | inl e ↦ rw e (omega arith)
    | inr (key, e) ↦ rw e (
        running_of-update_where i (queued_for key) (tombstoned now) rows
          (λ r _ h. tombstoned_quiet r h))
  ]

  running_of-new :
      (json : KindJson) (d : Delivery) (t : Task) (rows : List TaskRow)
      → running_of i (task_row json now d t ∷ tombstone_older now t rows) ≤ running_of i rows
  unfolding running_of count_where task_row
  running_of-new json d t rows = unfold running_of in running_of-tombstone_older t rows

  running_of-record_sync :
      (json : KindJson) (db : Db) (d : Delivery) (label : String) (o : Option Task)
      → running_of i (record_delivery_sync json now db d label o).1.tasks ≤ running_of i db.tasks
  unfolding record_delivery_sync
  running_of-record_sync json db d label o = elim (Bool-cases (seen db d.delivery_id)) [
    | inl e ↦ rw e (omega arith)
    | inr e ↦ elim (Option-cases o) [
      | inl q ↦ rw (e, q) (omega arith)
      | inr (t, q) ↦ elim (Bool-cases (has_task t.id db.tasks)) [
        | inl taken ↦ rw (e, q, taken) (omega arith)
        | inr fresh ↦ rw (e, q, fresh) (running_of-new json d t db.tasks)
      ]
    ]
  ]

  running_of-record :
      (json : KindJson) (db : Db) (d : Delivery) (routing : Routing)
      → running_of i (record_delivery json now db d routing).1.tasks ≤ running_of i db.tasks
  unfolding record_delivery
  running_of-record json db d (Routing.task t) = running_of-record_sync json db d _ (some t)
  running_of-record json db d (Routing.ignored reason) = running_of-record_sync json db d _ none

  finished_quiet :
      (t : Terminal) (r : TaskRow) → runs_for i (finished now t r) ≡ true → runs_for i r ≡ true
  unfolding state_of
  finished_quiet t r h = ground (arith, h)

  running_of-finish :
      (db : Db) (id : String) (t : Terminal)
      → running_of i (finish now db id t).tasks ≤ running_of i db.tasks
  unfolding finish
  running_of-finish db id t =
      running_of-update_where i (has_id id) (finished now t) db.tasks
        (λ r _ h. finished_quiet t r h)

  running_of-recover :
      (db : Db) (max : ℕ)
      → running_of i (recover_interrupted now db max).1.tasks ≤ running_of i db.tasks
  unfolding recover_interrupted
  running_of-recover db max =
      let rest = update_where (exhausted max) (given_up now) db.tasks in
      le_trans (running_of-update_where i running_row (requeued now) rest (λ r _ h. cc))
        (running_of-update_where i (exhausted max) (given_up now) db.tasks (λ r _ h. cc))

  running_of-supersede :
      (db : Db) (key : String) (except : Option String)
      → running_of i (supersede_queued now db key except).1.tasks ≤ running_of i db.tasks
  unfolding supersede_queued
  running_of-supersede db key except =
      running_of-update_where i (superseding key except) (tombstoned now) db.tasks
        (λ r _ h. tombstoned_quiet r h)

  running_of-commit :
      (before after : Db) (n : ℕ)
      → running_of i after.tasks ≤ running_of i before.tasks
      → running_of i (commit before after n).1.tasks ≤ running_of i before.tasks
  unfolding commit
  running_of-commit before after n h = elim (Bool-cases (fk_holds after)) [
    | inl e ↦ rw e h
    | inr e ↦ rw e (omega arith)
  ]

  running_of-delete_tasks :
      (db : Db) (j : ℕ)
      → running_of i (delete_tasks_for_installation db j).1.tasks ≤ running_of i db.tasks
  unfolding delete_tasks_for_installation purged
  running_of-delete_tasks db j =
      running_of-commit db (purged j db) _
        (running_of-delete_where i (task_of_installation j) db.tasks)

  running_of-expire :
      (db : Db) (cutoff : ℕ)
      → running_of i (expire_terminal_tasks_before db cutoff).1.tasks ≤ running_of i db.tasks
  unfolding expire_terminal_tasks_before expired
  running_of-expire db cutoff =
      running_of-commit db (expired cutoff db) _
        (running_of-delete_where i (expiring cutoff) db.tasks)

module _ (json : KindJson) (caps : Caps) (i cap : ℕ) (limit : cap_of i caps ≡ some cap)
    (pos : 0 < cap) where
  step_within_cap :
      (now : ℕ) (op : Op) (db : Db)
      → IsValid db
      → running_of i db.tasks ≤ cap
      → running_of i (step json caps now op db).tasks ≤ cap
  unfolding step set_check_run_url cancel_queued supersede_queued_except
  step_within_cap now claim db v w = claim_next_cap json now caps db i cap limit pos v w
  step_within_cap now (deliver d routing) db v w =
      le_trans (running_of-record now i json db d routing) w
  step_within_cap now (complete id t) db v w = le_trans (running_of-finish now i db id t) w
  step_within_cap now (set_url id url) db v w =
      le_trans
        (running_of-update_where i (has_id id)
          (λ (r : TaskRow). record r { check_run_url = some url; updated_at = now }) db.tasks
          (λ r _ h. h))
        w
  step_within_cap now (recover max) db v w = le_trans (running_of-recover now i db max) w
  step_within_cap now (cancel key) db v w = le_trans (running_of-supersede now i db key none) w
  step_within_cap now (supersede_except key id) db v w =
      le_trans (running_of-supersede now i db key (some id)) w
  step_within_cap now (uninstall j) db v w = le_trans (running_of-delete_tasks now i db j) w
  step_within_cap now (expire cutoff) db v w = le_trans (running_of-expire now i db cutoff) w

  -- After any sequence of the queue's operations (`Op`), an installation with a cap other than 0
  -- runs at most as many tasks as its cap, if it did at first, the tables were well formed, and
  -- every recorded task is of its delivery's installation.
  pub run_within_cap :
      (ops : List (ℕ × Op)) (db : Db)
      → All (λ (o : ℕ × Op). IsOwned o.1) ops
      → IsValid db
      → running_of i db.tasks ≤ cap
      → running_of i (run json caps ops db).tasks ≤ cap
  unfolding run
  run_within_cap [] db o v w = w
  run_within_cap ((now, op) ∷ ops) db o v w =
      run_within_cap ops (step json caps now op db) o.1 (step-IsValid json caps now op db o.0 v)
        (step_within_cap now op db v w)
