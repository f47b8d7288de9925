-- ===== src/Store/Retention/Tenancy.antt =====
-- What an uninstall and the retention remove, and what they leave (crates/store/src/lib.rs).
use mathlib.Core.Option.{some-injective}
use coven_github.Store.Validity.Removing.{commit-IsValid, expired-IsValid, purged-IsValid}
use coven_github.Store.Retention.{
  task_of_installation, attempt_of, delete_tasks_for_installation, purged, delivery_of_installation,
  expire_terminal_tasks_before, expired, expiring, is_number,
}
use coven_github.Base.{
  ℕ, All, All-map, All_all, Bool, Distinct-unique, List, String, [], any-false_of_All, arith,
  delete_where, false, nat_Eq, refl, select_where, some, text_Eq, true, ◌&&◌, ◌==◌, ◌∷◌, ◌≡◌, ◌≢◌,
  Bool-cases, ap, eq_of_==, inl, inr, ◌∙◌, ==_of_ne, All-delete_where, Option, leb, ne_of_==, none,
  not, sym, All-select_where, ◌||◌,
}
use coven_github.Store.Schema.{Db, AttemptRow, DeliveryRow, TaskRow, is_terminal, constraint, err}
use coven_github.Store.Validity.{IsValid}

select-delete {ℓ} :
    {A : Type ℓ} (q p : A → Bool) (xs : List A)
    → All (λ x. q x ≡ true → p x ≡ false) xs
    → select_where q (delete_where p xs) ≡ select_where q xs
unfolding select_where delete_where
select-delete q p [] h = refl
select-delete q p (x ∷ xs) h = ground (arith, h.0, select-delete q p xs h.1)

-- The attempts of one task.
abbrev pub attempts_of : String → Db → List AttemptRow
attempts_of id db = select_where (λ (a : AttemptRow). a.task_id == id) db.attempts

-- No task that goes has the attempt of one that stays.
not_of_other :
    (p : TaskRow → Bool) (t u : TaskRow) (a : AttemptRow)
    → (u.id ≡ t.id → u ≡ t)
    → p t ≡ false
    → (a.task_id == t.id) ≡ true
    → (u.id == a.task_id && p u) ≡ false
not_of_other p t u a same kept mine = elim (Bool-cases (u.id == a.task_id)) [
  | inr e ↦ rw e
  | inl e ↦
      let one = same (eq_of_== _ _ e ∙ eq_of_== _ _ mine) in
      let gone_not : p u ≡ false = ap p one ∙ kept in rw (e, gone_not)
]

-- An attempt of a kept task is kept.
attempts-kept :
    (p : TaskRow → Bool) (db : Db)
    → IsValid db
    → All
        (λ (t : TaskRow).
          p t ≡ false
          → select_where
              (λ (a : AttemptRow). a.task_id == t.id)
              (delete_where (attempt_of p db.tasks) db.attempts)
            ≡ attempts_of t.id db)
        db.tasks
attempts-kept p db v =
    All-map db.tasks
      (λ t one kept.
        select-delete (λ (a : AttemptRow). a.task_id == t.id) (attempt_of p db.tasks) db.attempts
          (All_all db.attempts (λ a mine.
            any-false_of_All (λ (u : TaskRow). u.id == a.task_id && p u) db.tasks
              (All-map db.tasks (λ u same. not_of_other p t u a same kept mine) one))))
      (Distinct-unique (λ (t : TaskRow). t.id) db.tasks v.distinct_tasks)

not_this : (i : ℕ) (o : Option ℕ) → is_number o i ≡ false → o ≢ some i
not_this i none h e = cc
not_this i (some j) h e = ne_of_== j i h (some-injective _ _ e)

select_where-of {ℓ κ} :
    {A : Type ℓ} (P : A → Type κ) (p : A → Bool) (xs : List A)
    → All (λ x. p x ≡ true → P x) xs
    → All P (select_where p xs)
select_where-of P p xs h = All-select_where p xs (λ x k e. k e) h

purged_none :
    (i : ℕ) (db : Db)
    → All (λ (t : TaskRow). t.installation_id ≢ i) (purged i db).tasks
      × All (λ (d : DeliveryRow). d.installation_id ≢ some i) (purged i db).deliveries
unfolding purged
purged_none i db = (
  All-delete_where {P = λ _. Unit {0}} (task_of_installation i) db.tasks (λ t _ q. ne_of_== _ _ q)
      (All_all db.tasks (λ _. tt)),
  All-delete_where {P = λ _. Unit {0}} (delivery_of_installation i) db.deliveries
      (λ d _ q e. not_this i d.installation_id q e) (All_all db.deliveries (λ _. tt)),
)

purged_others :
    (i j : ℕ) (db : Db)
    → IsValid db
    → j ≢ i
    → (select_where (task_of_installation j) (purged i db).tasks
        ≡ select_where (task_of_installation j) db.tasks)
      × All
          (λ (t : TaskRow). attempts_of t.id (purged i db) ≡ attempts_of t.id db)
          (select_where (task_of_installation j) db.tasks)
unfolding purged
purged_others i j db v other =
    let apart = λ (t : TaskRow) (mine : (t.installation_id == j) ≡ true).
      ==_of_ne t.installation_id i (λ e. other (sym (eq_of_== _ _ mine) ∙ e)) in
    (
      select-delete (task_of_installation j) (task_of_installation i) db.tasks
          (All_all db.tasks apart),
      select_where-of _ (task_of_installation j) db.tasks (
          All-map db.tasks (λ t kept mine. kept (apart t mine))
            (attempts-kept (task_of_installation i) db v)),
    )

-- On well-formed tables, an uninstall of `i` commits; it leaves no task and no delivery of `i`;
-- and it leaves the tasks of any other installation `j`, and their attempts, as they were.
pub delete_tasks_isolates :
    (db : Db) (i j : ℕ)
    → IsValid db
    → j ≢ i
    → let (outcome, after) = delete_tasks_for_installation db i in
      (outcome ≢ err constraint)
      × All (λ (t : TaskRow). t.installation_id ≢ i) after.tasks
      × All (λ (d : DeliveryRow). d.installation_id ≢ some i) after.deliveries
      × (select_where (task_of_installation j) after.tasks
          ≡ select_where (task_of_installation j) db.tasks)
      × All
          (λ (t : TaskRow). attempts_of t.id after ≡ attempts_of t.id db)
          (select_where (task_of_installation j) db.tasks)
unfolding delete_tasks_for_installation
delete_tasks_isolates db i j v other =
    let gone = purged_none i db in
    let kept = purged_others i j db v other in
    rw (commit-IsValid db (purged i db) _ (purged-IsValid i db v))
      ((λ e. cc), gone.0, gone.1, kept.0, kept.1)

-- On well-formed tables, retention commits; it keeps every row that is queued or running or was
-- updated since the cutoff, with its attempts; and no other row is left.
pub expire_keeps_in_flight :
    (db : Db) (cutoff : ℕ)
    → IsValid db
    → let (outcome, after) = expire_terminal_tasks_before db cutoff in
      let kept = λ (t : TaskRow). not (is_terminal t.state) || leb cutoff t.updated_at in
      (outcome ≢ err constraint)
      × (select_where kept after.tasks ≡ select_where kept db.tasks)
      × All (λ (t : TaskRow). kept t ≡ true) after.tasks
      × All
          (λ (t : TaskRow). attempts_of t.id after ≡ attempts_of t.id db)
          (select_where kept db.tasks)
unfolding expire_terminal_tasks_before
expire_keeps_in_flight db cutoff v =
    rw (commit-IsValid db (expired cutoff db) _ (expired-IsValid cutoff db v)) (
      unfold expired in
      (
        (λ e. cc),
        select-delete _ (expiring cutoff) db.tasks (All_all db.tasks (λ t h. ground (arith, h))),
        All-delete_where {P = λ _. Unit {0}} (expiring cutoff) db.tasks (λ t _ q. ground (arith, q))
            (All_all db.tasks (λ _. tt)),
        select_where-of _ _ db.tasks (
            All-map db.tasks (λ t h mine. h (ground (arith, mine)))
              (attempts-kept (expiring cutoff) db v)),
      ))
