-- ===== src/Store/Validity/Finishing.antt =====
-- `finish`, `recover_interrupted`, `supersede_queued` and `set_check_run_url` keep the tables well
-- formed (crates/store/src/lib.rs).
use coven_github.Base.{
  ℕ, All, All-map, All-update_where, Bool, Cross, Distinct-update_where, List, Option, String,
  and-eq-true, any-update_where, arith, false, inl, inr, refl, some, true, update_where, ◌∙◌, ◌≡◌,
  ◌≢◌, ◌⊎◌, All-zip, All_all, and-eq-false_right, nat_Eq, none, text_Eq, ◌==◌,
}
use coven_github.Store.Schema.{Db, AttemptRow, TaskRow, TaskState, Terminal, is_queued, is_none}
use coven_github.Store.Deliveries.{has_task, tombstoned}
use coven_github.Store.Queue.{
  has_id, closed, finish, finished, open_attempt_of, set_check_run_url, supersede_queued,
  superseding, exhausted, given_up, interrupted, recover_interrupted, requeued, running_row,
}
use coven_github.Store.Validity.{IsValid, Fits}

-- An update of the tasks that keeps the columns which other tables refer to.
module _ (p : TaskRow → Bool) (f : TaskRow → TaskRow) (same_id : (t : TaskRow) → (f t).id ≡ t.id)
    (same_delivery : (t : TaskRow) → (f t).delivery_id ≡ t.delivery_id)
    (same_installation : (t : TaskRow) → (f t).installation_id ≡ t.installation_id) where
  pub update_tasks-IsValid :
      (db : Db) (attempts : List AttemptRow)
      → IsValid db
      → All (λ (a : AttemptRow). has_task a.task_id db.tasks ≡ true) attempts
      → Cross Fits (update_where p f db.tasks) attempts
      → IsValid (record db { tasks = update_where p f db.tasks; attempts = attempts })
  update_tasks-IsValid db attempts v known fit = record {
    distinct_deliveries = v.distinct_deliveries;
    distinct_tasks = Distinct-update_where (λ t. t.id) p f db.tasks same_id v.distinct_tasks;
    attempts_fit = fit;
    owners =
        All-update_where p f db.tasks
          (λ t h _.
            All-map db.deliveries (λ d own e. rw same_installation (own (e ∙ same_delivery t))) h)
          (λ t h _. h) v.owners;
    task_of_attempt =
        All-map attempts
          (λ a h. any-update_where (has_id a.task_id) p f db.tasks (λ t. rw same_id) ∙ h) known;
    delivery_of_task =
        All-update_where p f db.tasks (λ t h _. rw same_delivery h) (λ t h _. h) v.delivery_of_task;
  }

  -- The same where the attempts stay, and the state changes only on rows with no open attempt.
  pub update_rows-IsValid :
      (db : Db)
      → IsValid db
      → ((t : TaskRow) → p t ≡ true → t.state ≢ TaskState.running ⊎ ((f t).state ≡ t.state))
      → ((t : TaskRow) → (f t).attempts ≡ t.attempts)
      → IsValid (record db { tasks = update_where p f db.tasks })
  update_rows-IsValid db v quiet same_attempts =
      update_tasks-IsValid db db.attempts v v.task_of_attempt (
        All-update_where p f db.tasks
          (λ t h q.
            All-map db.attempts
              (λ a fit e. (
                rw same_attempts (fit (e ∙ same_id t)).0,
                λ open_still. elim (quiet t q) [
                  | inl not_running ↦ absurd (not_running ((fit (e ∙ same_id t)).1 open_still))
                  | inr kept ↦ kept ∙ (fit (e ∙ same_id t)).1 open_still
                ],
              ))
              h)
          (λ t h _. h) v.attempts_fit)

-- A queued row is not running.
queued_not_running : (s : TaskState) → is_queued s ≡ true → s ≢ TaskState.running
queued_not_running s h e = ground (arith, h, e)

pub supersede_queued-IsValid :
    (now : ℕ) (db : Db) (key : String) (except : Option String)
    → IsValid db
    → IsValid (supersede_queued now db key except).1
unfolding supersede_queued
supersede_queued-IsValid now db key except v =
    update_rows-IsValid (superseding key except) (tombstoned now) (λ t. refl) (λ t. refl)
      (λ t. refl) db v
      (λ t q. inl (queued_not_running t.state (and-eq-true _ _ (and-eq-true _ _ q).0).1))
      (λ t. refl)

pub set_check_run_url-IsValid :
    (now : ℕ) (db : Db) (id url : String) → IsValid db → IsValid (set_check_run_url now db id url)
unfolding set_check_run_url
set_check_run_url-IsValid now db id url v =
    update_rows-IsValid (has_id id) (λ r. record r { check_run_url = some url; updated_at = now })
      (λ t. refl) (λ t. refl) (λ t. refl) db v (λ t _. inr refl) (λ t. refl)

module _ (now : ℕ) (db : Db) (id : String) (o : Terminal) (v : IsValid db) where
  -- Once they are closed, the attempts of the task fit it in any state.
  closed_fit :
      (t : TaskRow)
      → All (Fits t) db.attempts
      → has_id id t ≡ true
      → All (Fits (finished now o t)) (update_where (open_attempt_of id) (closed now o) db.attempts)
  closed_fit t fits e =
      All-update_where (open_attempt_of id) (closed now o) db.attempts
        (λ a fit _ same. ((fit same).0, λ unended. cc))
        (λ a fit still same. (
          (fit same).0,
          λ unended.
              (let hit : (a.task_id == id) ≡ true = rw same e in
                let q = and-eq-false_right _ _ hit still in cc (rw unended at q)),
        ))
        fits

  other_fit :
      (t : TaskRow)
      → All (Fits t) db.attempts
      → has_id id t ≡ false
      → All (Fits t) (update_where (open_attempt_of id) (closed now o) db.attempts)
  other_fit t fits e =
      All-update_where (open_attempt_of id) (closed now o) db.attempts
        (λ a fit _ same. ((fit same).0, λ unended. cc)) (λ a fit still same. fit same) fits

  pub finish-IsValid : IsValid (finish now db id o)
  unfolding finish
  finish-IsValid =
      update_tasks-IsValid (has_id id) (finished now o) (λ t. refl) (λ t. refl) (λ t. refl) db
        (update_where (open_attempt_of id) (closed now o) db.attempts) v
        (All-update_where (open_attempt_of id) (closed now o) db.attempts (λ a h _. h) (λ a h _. h)
          v.task_of_attempt)
        (All-update_where (has_id id) (finished now o) db.tasks closed_fit other_fit v.attempts_fit)

-- Where every attempt has ended, the tasks may change state at will.
ended_fit :
    (p : TaskRow → Bool) (f : TaskRow → TaskRow) (rows : List TaskRow) (attempts : List AttemptRow)
    → ((t : TaskRow) → (f t).id ≡ t.id)
    → ((t : TaskRow) → (f t).attempts ≡ t.attempts)
    → All (λ (a : AttemptRow). a.ended_at ≢ none) attempts
    → Cross Fits rows attempts
    → Cross Fits (update_where p f rows) attempts
ended_fit p f rows attempts same_id same_attempts ended fits =
    All-update_where p f rows
      (λ t h _.
        All-zip attempts
          (λ a over fit e.
            (rw same_attempts (fit (e ∙ same_id t)).0, λ unended. absurd (over unended)))
          ended h)
      (λ t h _. h) fits

-- What recovery leaves of the attempts, with the tasks not yet changed.
abbrev all_ended : ℕ → Db → Db
all_ended now db = record db {
  attempts = update_where (λ (a : AttemptRow). is_none a.ended_at) (interrupted now) db.attempts;
}

module _ (now : ℕ) (db : Db) where
  pub interrupted_ended : All (λ (a : AttemptRow). a.ended_at ≢ none) (all_ended now db).attempts
  interrupted_ended =
      All-update_where (λ (a : AttemptRow). is_none a.ended_at) (interrupted now) db.attempts
        (λ a _ _ unended. cc) (λ a _ q unended. cc (rw unended at q))
        (All_all {P = λ _. Unit {0}} db.attempts (λ _. tt))

  all_ended-IsValid : IsValid db → IsValid (all_ended now db)
  all_ended-IsValid v = record {
    distinct_deliveries = v.distinct_deliveries;
    distinct_tasks = v.distinct_tasks;
    attempts_fit =
        All-map db.tasks
          (λ t fits.
            All-update_where (λ (a : AttemptRow). is_none a.ended_at) (interrupted now) db.attempts
              (λ a fit _ e. ((fit e).0, λ unended. cc)) (λ a fit _. fit) fits)
          v.attempts_fit;
    owners = v.owners;
    task_of_attempt =
        All-update_where (λ (a : AttemptRow). is_none a.ended_at) (interrupted now) db.attempts
          (λ a h _. h) (λ a h _. h) v.task_of_attempt;
    delivery_of_task = v.delivery_of_task;
  }

  -- Recovery changes only states, times and summaries.
  module _ (p : TaskRow → Bool) (f : TaskRow → TaskRow) (same : (t : TaskRow) → (f t).id ≡ t.id)
      (delivery : (t : TaskRow) → (f t).delivery_id ≡ t.delivery_id)
      (installation : (t : TaskRow) → (f t).installation_id ≡ t.installation_id)
      (attempts : (t : TaskRow) → (f t).attempts ≡ t.attempts) where
    recovered-IsValid :
        (d : Db)
        → IsValid d
        → All (λ (a : AttemptRow). a.ended_at ≢ none) d.attempts
        → IsValid (record d { tasks = update_where p f d.tasks })
    recovered-IsValid d v ended =
        update_tasks-IsValid p f same delivery installation d d.attempts v v.task_of_attempt
          (ended_fit p f d.tasks d.attempts same attempts ended v.attempts_fit)

  pub recover_interrupted-IsValid :
      (max : ℕ) → IsValid db → IsValid (recover_interrupted now db max).1
  unfolding recover_interrupted
  recover_interrupted-IsValid max v =
      let given = given_up now in
      let requeue = requeued now in
      let first =
        recovered-IsValid (exhausted max) given (λ t. refl) (λ t. refl) (λ t. refl) (λ t. refl)
          (all_ended now db) (all_ended-IsValid v) interrupted_ended in
      recovered-IsValid running_row requeue (λ t. refl) (λ t. refl) (λ t. refl) (λ t. refl)
        (record (all_ended now db) { tasks = update_where (exhausted max) (given_up now) db.tasks })
        first interrupted_ended
