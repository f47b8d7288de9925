-- ===== src/Store/Deliveries/Supersession.antt =====
-- Which queued reviews a new review displaces (crates/store/src/lib.rs).
use coven_github.Store.Deliveries.{
  has_task, seen, task_row, supersede_key, tombstoned, record_delivery_sync, tombstone_older,
  record_delivery, queued_for,
}
use coven_github.GitHub.{Task}
use coven_github.Store.Schema.{is_none, new, ok, TaskRow, Routing, KindJson, Delivery, Db}
use coven_github.Base.{
  ℕ, ==_refl, All, All-update_where, All_all, Bool-cases, List, String, arith, false, inl, inr,
  none, some, true, update_where, ◌∙◌, ◌∷◌, ◌≡◌, ◌⊎◌, Option, ap, nat_Eq, text_Eq,
}

-- After an update that tombstones them, no row of the key is queued.
none_queued :
    (now : ℕ) (key : String) (rows : List TaskRow)
    → All
        (λ (r : TaskRow). queued_for key r ≡ false)
        (update_where (queued_for key) (tombstoned now) rows)
none_queued now key rows =
    All-update_where {P = λ _. Unit {0}} (queued_for key) (tombstoned now) rows
      (λ r _ _. ground arith) (λ r _ q. q) (All_all rows (λ _. tt))

module _ (json : KindJson) (now : ℕ) (db : Db) (d : Delivery) (t : Task) where
  pub new_rows :
      (record_delivery json now db d (Routing.task t)).0 ≡ ok new
      → (record_delivery json now db d (Routing.task t)).1.tasks
        ≡ task_row json now d t ∷ tombstone_older now t db.tasks
  unfolding record_delivery record_delivery_sync
  new_rows e = elim (Bool-cases (seen db d.delivery_id)) [
    | inl s ↦ cc (rw s at e)
    | inr s ↦ elim (Bool-cases (has_task t.id db.tasks)) [
      | inl taken ↦ cc (rw (s, taken) at e)
      | inr fresh ↦ rw (s, fresh)
    ]
  ]

  tombstone_auto :
      (key : String)
      → t.commander ≡ none
      → supersede_key t ≡ some key
      → task_row json now d t ∷ tombstone_older now t db.tasks
        ≡ task_row json now d t ∷ update_where (queued_for key) (tombstoned now) db.tasks
  unfolding tombstone_older
  tombstone_auto key auto k =
      let by_adapter : is_none t.commander ≡ true = ap (λ (c : Option String). is_none c) auto in
      rw (by_adapter, k)

  -- A review that no commander asked for, once recorded as new, is the only queued row of its pull
  -- request: the first row is the new task's, queued under its key, and no other row of the key is
  -- queued.
  pub auto_review_supersedes :
      (key : String)
      → (record_delivery json now db d (Routing.task t)).0 ≡ ok new
      → t.commander ≡ none
      → supersede_key t ≡ some key
      → (rest : List TaskRow) × ((record_delivery json now db d (Routing.task t)).1.tasks
          ≡ task_row json now d t ∷ rest)
        × (queued_for key (task_row json now d t) ≡ true)
        × All (λ (r : TaskRow). queued_for key r ≡ false) rest
  auto_review_supersedes key e auto k = (
    update_where (queued_for key) (tombstoned now) db.tasks,
    new_rows e ∙ tombstone_auto key auto k,
    unfold task_row in rw k (ground (arith, ==_refl key)),
    none_queued now key db.tasks,
  )

  -- A task with a commander, or of a kind that has no key, displaces nothing when it is recorded
  -- as new.
  pub commanded_displaces_nothing :
      (record_delivery json now db d (Routing.task t)).0 ≡ ok new
      → (is_none t.commander ≡ false) ⊎ (supersede_key t ≡ none)
      → (record_delivery json now db d (Routing.task t)).1.tasks ≡ task_row json now d t ∷ db.tasks
  unfolding tombstone_older
  commanded_displaces_nothing e (inl c) = new_rows e ∙ rw c
  commanded_displaces_nothing e (inr k) = new_rows e ∙ ground (arith, k)
