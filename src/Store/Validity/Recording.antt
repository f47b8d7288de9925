-- ===== src/Store/Validity/Recording.antt =====
-- `record_delivery` keeps the tables well formed (crates/store/src/lib.rs).
use mathlib.Core.Option.{some-injective}
use mathlib.Core.Path.{subst}
use coven_github.Base.{
  ℕ, All, All-map, All-update_where, Bool-cases, Distinct, Distinct-update_where, List,
  Option-cases, String, and-eq-true, any-update_where, false, inl, inr, nat_Eq, ne_of_test, refl,
  text_Eq, true, update_where, ◌∷◌, ◌≡◌, ◌⊎◌, ==_refl, All-zip, All_of_any-false, Cross, Option,
  arith, ne_of_==, none, some, sym, ◌==◌, ◌∙◌,
}
use coven_github.GitHub.{Task}
use coven_github.Store.Schema.{Db, Delivery, KindJson, TaskRow, is_none, is_queued, Routing}
use coven_github.Store.Deliveries.{
  has_task, delivery_row, queued_for, seen, supersede_key, tombstone_older, tombstoned,
  record_delivery, record_delivery_sync, task_row,
}
use coven_github.Store.Validity.{IsValid, Owns, has_delivery, Fits}

module _ (now : ℕ) (t : Task) (rows : List TaskRow) where
  pub tombstone_cases :
      (tombstone_older now t rows ≡ rows)
      ⊎ ((key : String) × (tombstone_older now t rows
            ≡ update_where (queued_for key) (tombstoned now) rows))
  unfolding tombstone_older
  tombstone_cases = elim (Bool-cases (is_none t.commander)) [
    | inr e ↦ inl (rw e)
    | inl e ↦ elim (Option-cases (supersede_key t)) [
      | inl k ↦ inl (rw (e, k))
      | inr (key, k) ↦ inr (key, rw (e, k))
    ]
  ]

  -- Only queued rows are tombstoned.
  pub All-tombstone_older :
      (P : TaskRow → Type 0)
      → ((r : TaskRow) → P r → is_queued r.state ≡ true → P (tombstoned now r))
      → All P rows
      → All P (tombstone_older now t rows)
  All-tombstone_older P step h = elim tombstone_cases [
    | inl e ↦ rw e h
    | inr (key, e) ↦ rw e (
        All-update_where (queued_for key) (tombstoned now) rows
          (λ r p q. step r p (and-eq-true _ _ q).1) (λ r p _. p) h)
  ]

  pub has_task-tombstone_older :
      (id : String) → has_task id (tombstone_older now t rows) ≡ has_task id rows
  has_task-tombstone_older id = elim tombstone_cases [
    | inl e ↦ rw e
    | inr (key, e) ↦ rw e (
        any-update_where (λ (r : TaskRow). r.id == id) (queued_for key) (tombstoned now) rows
          (λ r. refl))
  ]

  pub Distinct-tombstone_older :
      Distinct (λ (r : TaskRow). r.id) rows
      → Distinct (λ (r : TaskRow). r.id) (tombstone_older now t rows)
  Distinct-tombstone_older h = elim tombstone_cases [
    | inl e ↦ rw e h
    | inr (key, e) ↦
        rw e
          (Distinct-update_where (λ r. r.id) (queued_for key) (tombstoned now) rows (λ r. refl) h)
  ]

abbrev pub with_delivery : ℕ → Delivery → String → Db → Db
with_delivery now d label db = record db { deliveries = delivery_row now d label ∷ db.deliveries }

abbrev with_task : KindJson → ℕ → Delivery → Task → Db → Db
with_task json now d t db = record db {
  tasks = task_row json now d t ∷ tombstone_older now t db.tasks;
}

module _ (now : ℕ) (db : Db) (d : Delivery) (label : String) (v : IsValid db) where
  pub with_delivery-IsValid : seen db d.delivery_id ≡ false → IsValid (with_delivery now d label db)
  unfolding delivery_row
  with_delivery-IsValid unseen = record {
    distinct_deliveries = (unseen, v.distinct_deliveries);
    distinct_tasks = v.distinct_tasks;
    attempts_fit = v.attempts_fit;
    owners =
        All-zip db.tasks
          (λ t known mine. (
            λ same. absurd (ne_of_test (λ id. has_delivery id db.deliveries) _ _ unseen known same),
            mine,
          ))
          v.delivery_of_task v.owners;
    task_of_attempt = v.task_of_attempt;
    delivery_of_task = All-map db.tasks (λ t known. ground (arith, known)) v.delivery_of_task;
  }

module _ (json : KindJson) (now : ℕ) (db : Db) (d : Delivery) (t : Task) (v : IsValid db)
    (fresh : has_task t.id db.tasks ≡ false) where
  attempts_fit_with_task : Cross Fits (with_task json now d t db).tasks db.attempts
  unfolding task_row
  attempts_fit_with_task = (
    All-map db.attempts
        (λ a known same.
          absurd (ne_of_test (λ id. has_task id db.tasks) _ _ fresh known (sym same)))
        v.task_of_attempt,
    All-tombstone_older now t db.tasks (λ r. All (Fits r) db.attempts)
        (λ r fits queued.
          All-map db.attempts
            (λ a fit same. ((fit same).0, λ unended. ground (arith, (fit same).1 unended))) fits)
        v.attempts_fit,
  )

  -- The delivery is the one that the tables already hold for this task.
  with_task-IsValid :
      has_delivery d.delivery_id db.deliveries ≡ true
      → All (Owns (task_row json now d t)) db.deliveries
      → IsValid (with_task json now d t db)
  unfolding task_row
  with_task-IsValid known mine = record {
    distinct_deliveries = v.distinct_deliveries;
    distinct_tasks = (
      has_task-tombstone_older now t db.tasks t.id ∙ fresh,
      Distinct-tombstone_older now t db.tasks v.distinct_tasks,
    );
    attempts_fit = attempts_fit_with_task;
    owners = (
      mine,
      All-tombstone_older now t db.tasks (λ r. All (Owns r) db.deliveries) (λ r h _. h) v.owners,
    );
    task_of_attempt =
        All-map db.attempts
          (λ a h. ground (arith, h, has_task-tombstone_older now t db.tasks a.task_id))
          v.task_of_attempt;
    delivery_of_task = (
      known,
      All-tombstone_older now t db.tasks (λ r. has_delivery r.delivery_id db.deliveries ≡ true)
          (λ r h _. h) v.delivery_of_task,
    );
  }

module _ (json : KindJson) (now : ℕ) (db : Db) (d : Delivery) (label : String)
    (v : IsValid db) where
  record_task-IsValid :
      (t : Task)
      → seen db d.delivery_id ≡ false
      → has_task t.id db.tasks ≡ false
      → d.installation_id ≡ some t.installation_id
      → IsValid (with_task json now d t (with_delivery now d label db))
  unfolding task_row delivery_row
  record_task-IsValid t unseen fresh owner =
      with_task-IsValid json now (with_delivery now d label db) d t
        (with_delivery-IsValid now db d label v unseen) fresh
        (ground (arith, ==_refl d.delivery_id))
        (
          λ _. owner,
          All-map db.deliveries (λ r other same. absurd (ne_of_== _ _ other same))
              (All_of_any-false _ db.deliveries unseen),
        )

  record_delivery_sync-IsValid :
      (t : Option Task)
      → ((u : Task) → t ≡ some u → d.installation_id ≡ some u.installation_id)
      → IsValid (record_delivery_sync json now db d label t).1
  unfolding record_delivery_sync
  record_delivery_sync-IsValid t owner = elim (Bool-cases (seen db d.delivery_id)) [
    | inl e ↦ rw e v
    | inr e ↦ elim (Option-cases t) [
      | inl q ↦ rw (e, q) (with_delivery-IsValid now db d label v e)
      | inr (u, q) ↦ elim (Bool-cases (has_task u.id db.tasks)) [
        | inl taken ↦ rw (e, q, taken) v
        | inr fresh ↦ rw (e, q, fresh) (record_task-IsValid u e fresh (owner u q))
      ]
    ]
  ]

abbrev pub OwnsRouting : Delivery → Routing → Type 0
OwnsRouting d (Routing.task t) = d.installation_id ≡ some t.installation_id
OwnsRouting d (Routing.ignored reason) = Unit

-- Recording any delivery, new or seen, keeps the tables well formed, if a task that it carries is of
-- the delivery's installation.
pub record_delivery-IsValid :
    (json : KindJson) (now : ℕ) (db : Db) (d : Delivery) (routing : Routing)
    → IsValid db
    → OwnsRouting d routing
    → IsValid (record_delivery json now db d routing).1
unfolding record_delivery
record_delivery-IsValid json now db d (Routing.task t) v owner =
    record_delivery_sync-IsValid json now db d _ v (some t) (λ u e.
      subst (λ (w : Task). d.installation_id ≡ some w.installation_id) (some-injective _ _ e) owner)
record_delivery-IsValid json now db d (Routing.ignored reason) v owner =
    record_delivery_sync-IsValid json now db d _ v none (λ u e. cc)
