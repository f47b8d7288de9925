-- ===== src/Webhook/Intake/Recording.antt =====
-- What a handler tells of the record of its delivery (crates/webhook/src/routes.rs).
use mathlib.Core.Option as Option
use mathlib.Core.Bool.{false≢true}
use coven_github.Store.Audit.{record_api_read}
use coven_github.Store.Billing.{record_delivery_with_plan}
use coven_github.Webhook.Payload.{WebhookPayload}
use coven_github.Webhook.Intake.Marketplace.{
  transition_of, plan_answer, handle_marketplace_purchase, Transition, plan_record,
}
use coven_github.Webhook.Intake.Parts.{Recorded-cases, either}
use coven_github.Store.Deliveries.{
  has_task, delivery_row, seen, record_delivery_sync, record_delivery,
}
use coven_github.Webhook.Intake.Handler.{enqueued}
use coven_github.GitHub.{Task}
use coven_github.Store.Schema.{
  err, ok, Routing, Result, Recorded, KindJson, Delivery, Db, AccountPlan,
}
use coven_github.Webhook.Intake.{
  answered, Handled, Answer, Call, audit_call, storage_unavailable, unless_down,
}
use coven_github.Base.{
  ℕ, ==_refl, AllSome, Bool-cases, Option, Option-cases, String, arith, false, inl, inr, nat_Eq,
  none, of_AllSome, refl, some, text_Eq, true, ◌<>◌, ◌≡◌, Bool, get_or_else, sym, ◌∙◌, ◌⊎◌,
}

-- The store took the record, and the tables hold the delivery; or it refused, which `Up` rules out.
abbrev pub Held : Type 0 → String → Db → (Result Recorded × Db) → Type 0
Held Up id db (ok r, after) = seen after id ≡ true
Held Up id db (err e, after) = (after ≡ db) × (Up → ⊥)

-- An answer of 200 with the delivery on record, or one of 500 with the tables as they were and the
-- worker asleep, which `Up` rules out.
abbrev pub Settled : Type 0 → String → Db → Handled → Type 0
Settled Up id db h =
    (((h.response.status ≡ 200) × (seen h.db id ≡ true))
      ⊎ ((h.response.status ≡ 500) × (h.woken ≡ false) × (h.db ≡ db)))
    × (Up → h.response.status ≡ 200)

module _ (Up : Type 0) (id : String) (db : Db) where
  pub answered-Settled :
      (r : Result Recorded × Db) (fresh again : Answer)
      → Held Up id db r
      → Settled Up id db (answered r fresh again)
  unfolding storage_unavailable
  answered-Settled (ok Recorded.new, after) fresh again h = (inl (refl, h), λ up. refl)
  answered-Settled (ok Recorded.duplicate, after) fresh again h = (inl (refl, h), λ up. refl)
  answered-Settled (err e, after) fresh again (same, down) =
      (inr (refl, refl, same), λ up. absurd (down up))

  pub enqueued-Settled :
      (r : Result Recorded × Db) → Held Up id db r → Settled Up id db (enqueued r)
  unfolding storage_unavailable
  enqueued-Settled (ok Recorded.new, after) h = (inl (refl, h), λ up. refl)
  enqueued-Settled (ok Recorded.duplicate, after) h = (inl (refl, h), λ up. refl)
  enqueued-Settled (err e, after) (same, down) = (inr (refl, refl, same), λ up. absurd (down up))

  pub unless-Settled :
      (down : Bool) (h : Handled)
      → (Up → down ≡ false)
      → Settled Up id db h
      → Settled Up id db (unless_down down db h)
  unfolding storage_unavailable
  unless-Settled true h up k = (inr (refl, refl, refl), λ all. absurd (false≢true (sym (up all))))
  unless-Settled false h up k = k

module _ (Up : Type 0) (json : KindJson) (now : ℕ) (db : Db) (d : Delivery) where
  pub record_delivery_sync-Held :
      (label : String) (t : Option Task)
      → (Up → AllSome (λ (u : Task). has_task u.id db.tasks ≡ false) t)
      → Held Up d.delivery_id db (record_delivery_sync json now db d label t)
  unfolding record_delivery_sync delivery_row
  record_delivery_sync-Held label t fresh = elim (Bool-cases (seen db d.delivery_id)) [
    | inl e ↦ rw e e
    | inr e ↦ elim (Option-cases t) [
      | inl q ↦ rw (e, q) (ground (arith, ==_refl d.delivery_id))
      | inr (u, q) ↦ elim (Bool-cases (has_task u.id db.tasks)) [
        | inl taken ↦
            rw (e, q, taken) (refl, λ up. false≢true (sym (of_AllSome _ t (fresh up) q) ∙ taken))
        | inr free ↦ rw (e, q, free) (ground (arith, ==_refl d.delivery_id))
      ]
    ]
  ]

  pub ignored-Held :
      (reason : String)
      → Held Up d.delivery_id db (record_delivery json now db d (Routing.ignored reason))
  unfolding record_delivery
  ignored-Held reason = record_delivery_sync-Held ("ignored:" <> reason) none (λ up. tt)

  pub task-Held :
      (t : Task)
      → (Up → has_task t.id db.tasks ≡ false)
      → Held Up d.delivery_id db (record_delivery json now db d (Routing.task t))
  unfolding record_delivery
  task-Held t fresh = record_delivery_sync-Held ("task:" <> t.id) (some t) fresh

pub plan_answer-seen :
    (fails : Call → Bool) (now : ℕ) (db : Db) (id action reason : String) (t : Option Transition)
    → seen db id ≡ true
    → let h = plan_answer fails now db action reason t in
      (h.response.status ≡ 200) × (seen h.db id ≡ true)
unfolding plan_answer record_api_read
plan_answer-seen fails now db id action reason none h = (refl, h)
plan_answer-seen fails now db id action reason (some t) h =
    (refl, either (λ (x : Db). seen x id ≡ true) (fails audit_call) db _ h h)

-- The delivery of a plan change is recorded with it.
pub plan_seen :
    (now : ℕ) (db : Db) (d : Delivery) (reason : String) (plan : Option AccountPlan)
    → seen (record_delivery_with_plan now db d reason plan).1 d.delivery_id ≡ true
unfolding record_delivery_with_plan delivery_row
plan_seen now db d reason plan = elim (Bool-cases (seen db d.delivery_id)) [
  | inl e ↦ rw e e
  | inr e ↦ rw e (ground (arith, ==_refl d.delivery_id))
]

pub purchase-seen :
    (fails : Call → Bool) (now : ℕ) (db : Db) (d : Delivery) (payload : WebhookPayload)
    → let h = handle_marketplace_purchase fails now db d payload in
      (h.response.status ≡ 200) × (seen h.db d.delivery_id ≡ true)
unfolding handle_marketplace_purchase
purchase-seen fails now db d payload =
    let t = transition_of payload in
    let reason = "marketplace_purchase:" <> get_or_else payload.action "" in
    let known = plan_seen now db d reason (Option.map plan_record t) in
    elim (Recorded-cases (record_delivery_with_plan now db d reason (Option.map plan_record t)).0) [
      | inl e ↦
          rw (e, handle_marketplace_purchase)
            (plan_answer-seen fails now _ d.delivery_id _ reason t known)
      | inr e ↦ rw (e, handle_marketplace_purchase) (refl, known)
    ]
