-- ===== src/Store/Validity/Removing.antt =====
-- What `delete_tasks_for_installation` and `expire_terminal_tasks_before` leave is well formed, so
-- that their commits never violate a foreign key (crates/store/src/lib.rs).
use coven_github.Base.{
  ℕ, All, All-delete_where, All-map, All-zip, All_of_any-false, Bool, Distinct-delete_where, List,
  [], and-eq-false_right, any-delete_where_kept, ap, delete_where, eq_of_==, every_of_All, false,
  nat_Eq, refl, text_Eq, true, ◌==◌, ◌∷◌, ◌≡◌,
}
use coven_github.Store.Schema.{Db, AttemptRow, DeliveryRow, TaskRow, ok}
use coven_github.Store.Deliveries.{has_task}
use coven_github.Store.Retention.{
  purged, attempt_of, delete_tasks_for_installation, delivery_of_installation, expired, expiring,
  fk_holds, task_of_installation, commit, expire_terminal_tasks_before,
}
use coven_github.Store.Validity.{IsValid, has_delivery}

pub IsValid-fk_holds : (db : Db) → IsValid db → fk_holds db ≡ true
unfolding fk_holds
IsValid-fk_holds db v = rw (
  every_of_All (λ (a : AttemptRow). has_task a.task_id db.tasks) db.attempts v.task_of_attempt,
  every_of_All (λ (t : TaskRow). has_delivery t.delivery_id db.deliveries) db.tasks
      v.delivery_of_task,
)

module _ (pa : AttemptRow → Bool) (pt : TaskRow → Bool) (pd : DeliveryRow → Bool) where
  abbrev without : Db → Db
  without db = record db {
    attempts = delete_where pa db.attempts;
    tasks = delete_where pt db.tasks;
    deliveries = delete_where pd db.deliveries;
  }

  without-IsValid :
      (db : Db)
      → IsValid db
      → All
          (λ (a : AttemptRow). pa a ≡ false → has_task a.task_id (delete_where pt db.tasks) ≡ true)
          db.attempts
      → All
          (λ (t : TaskRow).
            pt t ≡ false → has_delivery t.delivery_id (delete_where pd db.deliveries) ≡ true)
          db.tasks
      → IsValid (without db)
  without-IsValid db v keeps_task keeps_delivery = record {
    distinct_deliveries =
        Distinct-delete_where (λ d. d.delivery_id) pd db.deliveries v.distinct_deliveries;
    distinct_tasks = Distinct-delete_where (λ t. t.id) pt db.tasks v.distinct_tasks;
    attempts_fit =
        All-delete_where pt db.tasks (λ t h _. All-delete_where pa db.attempts (λ a fit _. fit) h)
          v.attempts_fit;
    owners =
        All-delete_where pt db.tasks (λ t h _. All-delete_where pd db.deliveries (λ d own _. own) h)
          v.owners;
    task_of_attempt = All-delete_where pa db.attempts (λ a h q. h q) keeps_task;
    delivery_of_task = All-delete_where pt db.tasks (λ t h q. h q) keeps_delivery;
  }

-- An attempt that is kept is of a task that is kept.
task_kept :
    (pt : TaskRow → Bool) (db : Db)
    → IsValid db
    → All
        (λ (a : AttemptRow).
          attempt_of pt db.tasks a ≡ false → has_task a.task_id (delete_where pt db.tasks) ≡ true)
        db.attempts
task_kept pt db v =
    All-map db.attempts
      (λ a known kept.
        any-delete_where_kept (λ (t : TaskRow). t.id == a.task_id) pt db.tasks
          (All-map db.tasks (λ t h e. and-eq-false_right _ _ e h)
            (All_of_any-false _ db.tasks kept))
          known)
      v.task_of_attempt

-- A task of another installation keeps its delivery.
delivery_kept :
    (i : ℕ) (db : Db)
    → IsValid db
    → All
        (λ (t : TaskRow).
          task_of_installation i t ≡ false
          → has_delivery t.delivery_id (delete_where (delivery_of_installation i) db.deliveries)
            ≡ true)
        db.tasks
delivery_kept i db v =
    All-zip db.tasks
      (λ t known own other.
        any-delete_where_kept (λ (d : DeliveryRow). d.delivery_id == t.delivery_id)
          (delivery_of_installation i) db.deliveries
          (All-map db.deliveries (λ d mine e. rw (mine (eq_of_== _ _ e)) other) own) known)
      v.delivery_of_task v.owners

pub purged-IsValid : (i : ℕ) (db : Db) → IsValid db → IsValid (purged i db)
unfolding purged
purged-IsValid i db v =
    without-IsValid (attempt_of (task_of_installation i) db.tasks) (task_of_installation i)
      (delivery_of_installation i) db v (task_kept (task_of_installation i) db v)
      (delivery_kept i db v)

delete_none {ℓ} : {A : Type ℓ} (xs : List A) → delete_where (λ x. false) xs ≡ xs
unfolding delete_where
delete_none [] = refl
delete_none (x ∷ xs) = ap (λ r. x ∷ r) (delete_none xs)

pub expired-IsValid : (cutoff : ℕ) (db : Db) → IsValid db → IsValid (expired cutoff db)
unfolding expired
expired-IsValid cutoff db v = rw (delete_none db.deliveries) at (
    without-IsValid (attempt_of (expiring cutoff) db.tasks) (expiring cutoff) (λ _. false) db v
      (task_kept (expiring cutoff) db v)
      (All-map db.tasks (λ t h _. rw delete_none h) v.delivery_of_task))

pub commit-IsValid :
    (before after : Db) (n : ℕ) → IsValid after → commit before after n ≡ (ok n, after)
unfolding commit
commit-IsValid before after n v = rw (IsValid-fk_holds after v)

pub delete_tasks-IsValid :
    (db : Db) (i : ℕ) → IsValid db → IsValid (delete_tasks_for_installation db i).1
unfolding delete_tasks_for_installation
delete_tasks-IsValid db i v =
    rw (commit-IsValid db (purged i db) _ (purged-IsValid i db v)) (purged-IsValid i db v)

pub expire_terminal-IsValid :
    (db : Db) (cutoff : ℕ) → IsValid db → IsValid (expire_terminal_tasks_before db cutoff).1
unfolding expire_terminal_tasks_before
expire_terminal-IsValid db cutoff v =
    rw (commit-IsValid db (expired cutoff db) _ (expired-IsValid cutoff db v))
      (expired-IsValid cutoff db v)
