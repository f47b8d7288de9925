-- ===== src/Store/Runs/Attempts.antt =====
-- A task that keeps crashing its process leaves the queue: its attempts stay within the budget of
-- `recover_interrupted` (crates/store/src/lib.rs).
use mathlib.Core.Path.{subst}
use coven_github.Store.Deliveries.{
  has_task, tombstoned, seen, task_row, record_delivery_sync, record_delivery,
}
use coven_github.Store.Retention.{
  expired, purged, expire_terminal_tasks_before, delete_tasks_for_installation, fk_holds, commit,
  expiring, task_of_installation,
}
use coven_github.Store.Validity.Claiming.{
  next_row-IsNext, next_row-All, claim_next-some, claim_next-none,
}
use coven_github.GitHub.{Task}
use coven_github.Store.Runs.{
  uninstall, supersede_except, cancel, set_url, complete, deliver, step, run, recover, Op, claim,
  expire,
}
use coven_github.Store.Validity.{IsValid}
use coven_github.Store.Runs.Invariant.{step-IsValid, IsOwned, empty-IsValid}
use coven_github.Store.Queue.{
  started, given_up, supersede_queued_except, next_row, finished, exhausted, requeued, has_id,
  claim_next, cancel_queued, superseding, state_of, set_check_run_url, running_row, claimable,
  supersede_queued, recover_interrupted, finish, claimed, Caps,
}
use coven_github.Store.Validity.Recording.{All-tombstone_older}
use coven_github.Base.{
  ℕ, All, All-delete_where, All-update_where, All-zip, Bool-cases, List, Option, Option-cases,
  String, [], and-eq-true, ap, arith, eq_of_==, inl, inr, nat_Eq, none, some, sym, text_Eq, true,
  update_where, ◌<◌, ◌∷◌, ◌≡◌, ◌≤◌, All-map, false, leb, ◌&&◌,
}
use coven_github.Store.Schema.{
  TaskRow, Db, Delivery, KindJson, Routing, Terminal, is_queued, is_running, empty,
}

abbrev pub InBudget : ℕ → TaskRow → Type 0
InBudget max t = (t.attempts ≤ max) × (is_queued t.state ≡ true → t.attempts < max)

-- The recovery at startup uses this budget.
abbrev pub UsesBudget : ℕ → Op → Type 0
UsesBudget max (recover m) = m ≡ max
UsesBudget max _ = Unit

module _ (max : ℕ) (pos : 0 < max) (now : ℕ) where
  InBudget-record_sync :
      (json : KindJson) (db : Db) (d : Delivery) (label : String) (o : Option Task)
      → All (InBudget max) db.tasks
      → All (InBudget max) (record_delivery_sync json now db d label o).1.tasks
  unfolding record_delivery_sync task_row
  InBudget-record_sync json db d label o h = elim (Bool-cases (seen db d.delivery_id)) [
    | inl e ↦ rw e h
    | inr e ↦ elim (Option-cases o) [
      | inl q ↦ rw (e, q) h
      | inr (t, q) ↦ elim (Bool-cases (has_task t.id db.tasks)) [
        | inl taken ↦ rw (e, q, taken) h
        | inr fresh ↦
            rw (e, q, fresh)
              (
                (omega arith, λ _. pos),
                All-tombstone_older now t db.tasks (InBudget max) (λ r p _. (p.0, λ b. cc)) h,
              )
      ]
    ]
  ]

  InBudget-record :
      (json : KindJson) (db : Db) (d : Delivery) (routing : Routing)
      → All (InBudget max) db.tasks
      → All (InBudget max) (record_delivery json now db d routing).1.tasks
  unfolding record_delivery
  InBudget-record json db d (Routing.task t) h = InBudget-record_sync json db d _ (some t) h
  InBudget-record json db d (Routing.ignored reason) h = InBudget-record_sync json db d _ none h

  started-InBudget :
      (r t : TaskRow)
      → t ≡ r
      → InBudget max r
      → is_queued r.state ≡ true
      → InBudget max (started now t)
  started-InBudget r t one known waiting =
      (omega (arith, ap (λ (u : TaskRow). u.attempts) one, known.1 waiting), λ b. cc)

  InBudget-started :
      (r : TaskRow) (rows : List TaskRow)
      → InBudget max r
      → is_queued r.state ≡ true
      → All (λ (t : TaskRow). t.id ≡ r.id → t ≡ r) rows
      → All (InBudget max) rows
      → All (InBudget max) (update_where (has_id r.id) (started now) rows)
  InBudget-started r rows known waiting only h =
      All-update_where {P = λ t. (t.id ≡ r.id → t ≡ r) × InBudget max t} (has_id r.id) (started now)
        rows (λ t p e. started-InBudget r t (p.0 (eq_of_== _ _ e)) known waiting) (λ t p _. p.1)
        (All-zip rows (λ t one p. (one, p)) only h)

  InBudget-claim :
      (json : KindJson) (caps : Caps) (db : Db)
      → IsValid db
      → All (InBudget max) db.tasks
      → All (InBudget max) (claim_next json now caps db).1.tasks
  unfolding claimed claimable
  InBudget-claim json caps db v h = elim (Option-cases (next_row caps db.tasks)) [
    | inl q ↦ rw (claim_next-none json now caps db q) h
    | inr (r, q) ↦
        let n = next_row-IsNext caps db r v q in
        let known = (next_row-All (InBudget max) caps db.tasks h q).0 in
        rw (claim_next-some json now caps db r v q)
          (InBudget-started r db.tasks known (and-eq-true _ _ n.waits).0 n.only h)
  ]

  InBudget-finish :
      (db : Db) (id : String) (t : Terminal)
      → All (InBudget max) db.tasks
      → All (InBudget max) (finish now db id t).tasks
  unfolding finish state_of
  InBudget-finish db id t h =
      All-update_where (has_id id) (finished now t) db.tasks
        (λ r p _. (p.0, λ b. ground (arith, b))) (λ r p _. p) h

  InBudget-recover :
      (db : Db)
      → All (InBudget max) db.tasks
      → All (InBudget max) (recover_interrupted now db max).1.tasks
  unfolding recover_interrupted
  InBudget-recover db h =
      All-update_where {P = λ t. InBudget max t × (is_running t.state ≡ true → t.attempts < max)}
        running_row (requeued now) (update_where (exhausted max) (given_up now) db.tasks)
        (λ r p e. (p.0.0, λ _. p.1 e)) (λ r p _. p.0)
        (All-update_where (exhausted max) (given_up now) db.tasks
          (λ r p _. ((p.0, λ b. cc), λ b. cc)) (λ r p e. (p, λ b. ground (arith, b, e))) h)

  InBudget-supersede :
      (db : Db) (key : String) (except : Option String)
      → All (InBudget max) db.tasks
      → All (InBudget max) (supersede_queued now db key except).1.tasks
  unfolding supersede_queued
  InBudget-supersede db key except h =
      All-update_where (superseding key except) (tombstoned now) db.tasks (λ r p _. (p.0, λ b. cc))
        (λ r p _. p) h

  InBudget-commit :
      (before after : Db) (n : ℕ)
      → All (InBudget max) before.tasks
      → All (InBudget max) after.tasks
      → All (InBudget max) (commit before after n).1.tasks
  unfolding commit
  InBudget-commit before after n h k = elim (Bool-cases (fk_holds after)) [
    | inl e ↦ rw e k
    | inr e ↦ rw e h
  ]

  InBudget-step :
      (json : KindJson) (caps : Caps) (op : Op) (db : Db)
      → UsesBudget max op
      → IsValid db
      → All (InBudget max) db.tasks
      → All (InBudget max) (step json caps now op db).tasks
  unfolding step set_check_run_url cancel_queued supersede_queued_except
      delete_tasks_for_installation expire_terminal_tasks_before purged expired
  InBudget-step json caps (deliver d routing) db u v h = InBudget-record json db d routing h
  InBudget-step json caps claim db u v h = InBudget-claim json caps db v h
  InBudget-step json caps (complete id t) db u v h = InBudget-finish db id t h
  InBudget-step json caps (set_url id url) db u v h =
      All-update_where (has_id id)
        (λ (r : TaskRow). record r { check_run_url = some url; updated_at = now }) db.tasks
        (λ r p _. p) (λ r p _. p) h
  InBudget-step json caps (recover m) db u v h =
      subst (λ k. All (InBudget max) (recover_interrupted now db k).1.tasks) (sym u)
        (InBudget-recover db h)
  InBudget-step json caps (cancel key) db u v h = InBudget-supersede db key none h
  InBudget-step json caps (supersede_except key id) db u v h = InBudget-supersede db key (some id) h
  InBudget-step json caps (uninstall i) db u v h =
      InBudget-commit db (purged i db) _ h
        (All-delete_where (task_of_installation i) db.tasks (λ r p _. p) h)
  InBudget-step json caps (expire cutoff) db u v h =
      InBudget-commit db (expired cutoff db) _ h
        (All-delete_where (expiring cutoff) db.tasks (λ r p _. p) h)

run-InBudget :
    (json : KindJson) (caps : Caps) (max : ℕ) (ops : List (ℕ × Op)) (db : Db)
    → 0 < max
    → All (λ (o : ℕ × Op). IsOwned o.1 × UsesBudget max o.1) ops
    → IsValid db
    → All (InBudget max) db.tasks
    → All (InBudget max) (run json caps ops db).tasks
unfolding run
run-InBudget json caps max [] db pos o v h = h
run-InBudget json caps max ((now, op) ∷ ops) db pos o v h =
    run-InBudget json caps max ops (step json caps now op db) pos o.1
      (step-IsValid json caps now op db o.0.0 v)
      (InBudget-step max pos now json caps op db o.0.1 v h)

-- After any sequence of the queue's operations (`Op`) on the empty tables, no task has been
-- claimed more often than the recovery's budget, and a task that has used it up is not queued, if
-- the budget is not 0, every recovery uses it, and every recorded task is of its delivery's
-- installation.
pub attempts_bounded :
    (json : KindJson) (caps : Caps) (max : ℕ) (ops : List (ℕ × Op))
    → 0 < max
    → All (λ (o : ℕ × Op). IsOwned o.1 × UsesBudget max o.1) ops
    → All
        (λ (t : TaskRow). (t.attempts ≤ max) × ((is_queued t.state && leb max t.attempts) ≡ false))
        (run json caps ops empty).tasks
attempts_bounded json caps max ops pos o =
    All-map (run json caps ops empty).tasks (λ t h. (h.0, ground (arith, h.1)))
      (run-InBudget json caps max ops empty pos o empty-IsValid tt)
