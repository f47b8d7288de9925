-- ===== src/Worker/Schedule/Once.antt =====
-- A scheduled run is enqueued once (crates/worker/src/gardener_schedule.rs).
use mathlib.Core.Path.{subst}
use coven_github.Store.Deliveries.Once.{record_delivery-duplicate}
use coven_github.Config.{Config}
use coven_github.Store.Deliveries.{
  has_task, delivery_row, seen, record_delivery_sync, record_delivery,
}
use coven_github.Worker.Schedule.{
  enqueue_all, due_runs, enqueue_due_gardener_runs, one_more, plus_count,
}
use coven_github.GitHub.{Task}
use coven_github.Store.Schema.{
  err, ok, StoreError, Routing, Result, Recorded, KindJson, Delivery, Db, duplicate,
}
use coven_github.Base.{
  ℕ, ==_refl, Bool-cases, List, String, [], arith, inl, inr, nat_Eq, refl, text_Eq, true, ◌∷◌, ◌≡◌,
  ◌⊎◌, All, ap, sym, ◌∙◌,
}

module _ (json : KindJson) (now : ℕ) (db : Db) (d : Delivery) (t : Task) where
  -- What is on record stays on record.
  seen-record_delivery :
      (id : String)
      → seen db id ≡ true
      → seen (record_delivery json now db d (Routing.task t)).1 id ≡ true
  unfolding record_delivery record_delivery_sync
  seen-record_delivery id h = elim (Bool-cases (seen db d.delivery_id)) [
    | inl e ↦ rw e h
    | inr e ↦ elim (Bool-cases (has_task t.id db.tasks)) [
      | inl taken ↦ rw (e, taken) h
      | inr fresh ↦ rw (e, fresh) (ground (arith, h))
    ]
  ]

  -- A delivery whose record does not fail is on record.
  seen_recorded :
      (r : Recorded)
      → (record_delivery json now db d (Routing.task t)).0 ≡ ok r
      → seen (record_delivery json now db d (Routing.task t)).1 d.delivery_id ≡ true
  unfolding record_delivery record_delivery_sync delivery_row
  seen_recorded r h = elim (Bool-cases (seen db d.delivery_id)) [
    | inl e ↦ rw e e
    | inr e ↦ elim (Bool-cases (has_task t.id db.tasks)) [
      | inl taken ↦ cc (rw (e, taken) at h)
      | inr fresh ↦ rw (e, fresh) (ground (arith, ==_refl d.delivery_id))
    ]
  ]

Result-cases :
    {A : Type 0} (r : Result A) → ((a : A) × (r ≡ ok a)) ⊎ ((e : StoreError) × (r ≡ err e))
Result-cases (ok a) = inl (a, refl)
Result-cases (err e) = inr (e, refl)

plus_count-tables : (n : ℕ) (r : Result ℕ × Db) → (plus_count n r).1 ≡ r.1
plus_count-tables n (ok m, db) = refl
plus_count-tables n (err e, db) = refl

plus_count-ok :
    (n : ℕ) (r : Result ℕ × Db) {k : ℕ} → (plus_count n r).0 ≡ ok k → (m : ℕ) × (r.0 ≡ ok m)
plus_count-ok n (ok m, db) h = (m, refl)
plus_count-ok n (err e, db) h = cc

module _ (json : KindJson) where
  module _ (now : ℕ) (db : Db) (d : Delivery) (t : Task) (runs : List (Delivery × Task)) where
    enqueue_all-step :
        (r : Recorded)
        → (record_delivery json now db d (Routing.task t)).0 ≡ ok r
        → let after = (record_delivery json now db d (Routing.task t)).1 in
          enqueue_all json now db ((d, t) ∷ runs)
          ≡ plus_count (one_more r) (enqueue_all json now after runs)
    unfolding enqueue_all
    enqueue_all-step r e = rw (e, enqueue_all) refl

    enqueue_all-stop :
        (f : StoreError)
        → (record_delivery json now db d (Routing.task t)).0 ≡ err f
        → enqueue_all json now db ((d, t) ∷ runs)
          ≡ (err f, (record_delivery json now db d (Routing.task t)).1)
    unfolding enqueue_all
    enqueue_all-stop f e = rw (e, enqueue_all) refl

  seen-enqueue_all :
      (now : ℕ) (db : Db) (runs : List (Delivery × Task)) (id : String)
      → seen db id ≡ true
      → seen (enqueue_all json now db runs).1 id ≡ true
  unfolding enqueue_all
  seen-enqueue_all now db [] id h = h
  seen-enqueue_all now db ((d, t) ∷ runs) id h =
      let after = (record_delivery json now db d (Routing.task t)).1 in
      let kept = seen-record_delivery json now db d t id h in
      elim (Result-cases (record_delivery json now db d (Routing.task t)).0) [
        | inl (r, e) ↦
            rw (e, plus_count-tables (one_more r) (enqueue_all json now after runs), enqueue_all)
              (seen-enqueue_all now after runs id kept)
        | inr (f, e) ↦ rw (e, enqueue_all) kept
      ]

  -- After a round that succeeds, every run of it is on record.
  all_seen :
      (now : ℕ) (db : Db) (runs : List (Delivery × Task)) (n : ℕ)
      → (enqueue_all json now db runs).0 ≡ ok n
      → All
          (λ (run : Delivery × Task).
            seen (enqueue_all json now db runs).1 run.0.delivery_id ≡ true)
          runs
  all_seen now db [] n h = tt
  all_seen now db ((d, t) ∷ runs) n h =
      let after = (record_delivery json now db d (Routing.task t)).1 in
      let rest = enqueue_all json now after runs in
      elim (Result-cases (record_delivery json now db d (Routing.task t)).0) [
        | inl (r, e) ↦
            let step = enqueue_all-step now db d t runs r e in
            let (m, fine) = plus_count-ok (one_more r) rest (rw step at h) in
            let same = ap (λ (x : Result ℕ × Db). x.1) step ∙ plus_count-tables (one_more r) rest in
            subst
              (λ (x : Db).
                All (λ (run : Delivery × Task). seen x run.0.delivery_id ≡ true) ((d, t) ∷ runs))
              (sym same)
              (
                seen-enqueue_all now after runs d.delivery_id (seen_recorded json now db d t r e),
                all_seen now after runs m fine,
              )
        | inr (f, e) ↦ cc (rw (enqueue_all-stop now db d t runs f e) at h)
      ]

  -- Runs that are all on record change nothing.
  enqueue_all-seen :
      (now : ℕ) (db : Db) (runs : List (Delivery × Task))
      → All (λ (run : Delivery × Task). seen db run.0.delivery_id ≡ true) runs
      → enqueue_all json now db runs ≡ (ok 0, db)
  unfolding enqueue_all
  enqueue_all-seen now db [] h = refl
  enqueue_all-seen now db ((d, t) ∷ runs) h =
      let known = record_delivery-duplicate json now db d (Routing.task t) h.0 in
      enqueue_all-step now db d t runs duplicate (ap (λ (x : Result Recorded × Db). x.0) known)
      ∙ ap (λ (x : Db). plus_count 0 (enqueue_all json now x runs))
          (ap (λ (x : Result Recorded × Db). x.1) known)
      ∙ ap (plus_count 0) (enqueue_all-seen now db runs h.1)

-- Once a round of the scheduler has succeeded, another round in the same minute, at any time,
-- enqueues nothing and changes nothing.
pub enqueue_due_gardener_runs-twice :
    (json : KindJson) (now later : ℕ) (cfg : Config) (db : Db) (minutes n : ℕ)
    → (enqueue_due_gardener_runs json now cfg db minutes).0 ≡ ok n
    → let after = (enqueue_due_gardener_runs json now cfg db minutes).1 in
      enqueue_due_gardener_runs json later cfg after minutes ≡ (ok 0, after)
unfolding enqueue_due_gardener_runs
enqueue_due_gardener_runs-twice json now later cfg db minutes n h =
    let runs = due_runs cfg minutes cfg.installations in
    enqueue_all-seen json later (enqueue_all json now db runs).1 runs
      (all_seen json now db runs n h)
