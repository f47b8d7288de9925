-- ===== src/Store/Deliveries/Once.antt =====
-- A delivery is recorded once (crates/store/src/lib.rs).
use coven_github.Store.Deliveries.{
  has_task, seen, delivery_row, record_delivery_sync, record_delivery,
}
use coven_github.GitHub.{Task}
use coven_github.Store.Schema.{new, duplicate, ok, Routing, KindJson, Delivery, Db}
use coven_github.Base.{
  ℕ, ==_refl, Bool-cases, Option, Option-cases, String, arith, inl, inr, none, some, true, ◌≡◌,
  nat_Eq, text_Eq,
}

module _ (json : KindJson) (now : ℕ) (db : Db) (d : Delivery) where
  sync-duplicate :
      (label : String) (o : Option Task)
      → seen db d.delivery_id ≡ true
      → record_delivery_sync json now db d label o ≡ (ok duplicate, db)
  unfolding record_delivery_sync
  sync-duplicate label o e = rw e

  pub record_delivery-duplicate :
      (routing : Routing)
      → seen db d.delivery_id ≡ true
      → record_delivery json now db d routing ≡ (ok duplicate, db)
  unfolding record_delivery
  record_delivery-duplicate (Routing.task t) e = sync-duplicate _ (some t) e
  record_delivery-duplicate (Routing.ignored reason) e = sync-duplicate _ none e

  sync-seen :
      (label : String) (o : Option Task)
      → (record_delivery_sync json now db d label o).0 ≡ ok new
      → seen (record_delivery_sync json now db d label o).1 d.delivery_id ≡ true
  unfolding record_delivery_sync delivery_row
  sync-seen label o e = elim (Bool-cases (seen db d.delivery_id)) [
    | inl s ↦ cc (rw s at e)
    | inr s ↦ elim (Option-cases o) [
      | inl q ↦ rw (s, q) (ground (arith, ==_refl d.delivery_id))
      | inr (t, q) ↦ elim (Bool-cases (has_task t.id db.tasks)) [
        | inl taken ↦ cc (rw (s, q, taken) at e)
        | inr fresh ↦ rw (s, q, fresh) (ground (arith, ==_refl d.delivery_id))
      ]
    ]
  ]

  record_delivery-seen :
      (routing : Routing)
      → (record_delivery json now db d routing).0 ≡ ok new
      → seen (record_delivery json now db d routing).1 d.delivery_id ≡ true
  unfolding record_delivery
  record_delivery-seen (Routing.task t) e = sync-seen _ (some t) e
  record_delivery-seen (Routing.ignored reason) e = sync-seen _ none e

-- Once a delivery has been recorded, recording any delivery of its id again, at any time and routed
-- to any task or reason, answers `duplicate` and changes nothing.
pub redelivery_ignored :
    (json : KindJson) (now later : ℕ) (db : Db) (d again : Delivery) (first second : Routing)
    → (record_delivery json now db d first).0 ≡ ok new
    → again.delivery_id ≡ d.delivery_id
    → record_delivery json later (record_delivery json now db d first).1 again second
      ≡ (ok duplicate, (record_delivery json now db d first).1)
redelivery_ignored json now later db d again first second e same =
    record_delivery-duplicate json later (record_delivery json now db d first).1 again second
      (rw same (record_delivery-seen json now db d first e))
