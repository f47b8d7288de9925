-- ===== src/Webhook/Intake/Parts.antt =====
-- The parts of a handler, and the tables that they leave well formed (crates/webhook/src/routes.rs).
use coven_github.Store.Retention.{delete_tasks_for_installation}
use coven_github.Webhook.Payload.{is_action, WebhookPayload}
use coven_github.Store.Deliveries.{seen}
use coven_github.Store.Memory.{delete_memory_for_installation}
use coven_github.Store.Billing.{
  delete_installation_account, record_installation_account, record_delivery_with_plan,
}
use coven_github.Store.Audit.{record_api_read}
use coven_github.Webhook.Intake.Handler.{purge, note_account, enqueued, removed_for}
use coven_github.Store.Validity.Recording.{with_delivery-IsValid}
use coven_github.Store.Validity.Removing.{delete_tasks-IsValid}
use coven_github.Webhook.Intake.Marketplace.{
  plan_answer, Transition, handle_marketplace_purchase, plan_record, transition_of,
}
use coven_github.Store.Validity.{IsValid}
use coven_github.Webhook.Intake.{
  Arrival, Answer, answered, Call, audit_call, forget_call, memory_call, tasks_call,
}
use coven_github.Store.Schema.{
  RevocationRow, MemoryActivity, InstallationAccount, Delivery, Db, AuditRow, AccountPlan, Recorded,
  Result, err, ok,
}
use mathlib.Core.Option as Option
use coven_github.Base.{
  ℕ, Bool-cases, List, Option, Option-cases, String, inl, inr, nat_Eq, none, not, some, text_Eq,
  ◌&&◌, ◌==◌, Bool, get_or_else, refl, ◌<>◌, ◌≡◌, ◌⊎◌, false, if◌then◌else◌, true,
}

-- The other tables do not count.
pub frame-IsValid :
    (db : Db) (audit : List AuditRow) (memory : List MemoryActivity)
    (revocations : List RevocationRow) (plans : List AccountPlan)
    (accounts : List InstallationAccount)
    → IsValid db
    → IsValid (record db {
      audit = audit;
      memory = memory;
      revocations = revocations;
      plans = plans;
      accounts = accounts;
    })
frame-IsValid db audit memory revocations plans accounts v = record {
  distinct_deliveries = v.distinct_deliveries;
  distinct_tasks = v.distinct_tasks;
  attempts_fit = v.attempts_fit;
  owners = v.owners;
  task_of_attempt = v.task_of_attempt;
  delivery_of_task = v.delivery_of_task;
}

pub record_api_read-IsValid :
    (now : ℕ) (db : Db) (caller scope action result : String)
    → IsValid db
    → IsValid (record_api_read now db caller scope action result)
unfolding record_api_read
record_api_read-IsValid now db caller scope action result v = frame-IsValid db _ _ _ _ _ v

pub note_account-IsValid :
    (now : ℕ) (db : Db) (a : Arrival) → IsValid db → IsValid (note_account now db a)
unfolding note_account record_installation_account
note_account-IsValid now db a v =
    elim (Bool-cases (a.event_type == "installation" && not (is_action a.payload "deleted"))) [
      | inr e ↦ rw e v
      | inl e ↦ elim (Option-cases a.payload.installation) [
        | inl i ↦ rw (e, i) v
        | inr (inst, i) ↦ elim (Option-cases inst.account) [
          | inl c ↦ rw (e, i, c) v
          | inr (account, c) ↦ rw (e, i, c) (frame-IsValid db _ _ _ _ _ v)
        ]
      ]
    ]

pub record_delivery_with_plan-IsValid :
    (now : ℕ) (db : Db) (d : Delivery) (reason : String) (plan : Option AccountPlan)
    → IsValid db
    → IsValid (record_delivery_with_plan now db d reason plan).1
unfolding record_delivery_with_plan
record_delivery_with_plan-IsValid now db d reason plan v =
    elim (Bool-cases (seen db d.delivery_id)) [
      | inl e ↦ rw e v
      | inr e ↦ rw e (frame-IsValid _ _ _ _ _ _ (with_delivery-IsValid now db d _ v e))
    ]

-- Either branch of a test.
pub either {ℓ κ} :
    {A : Type ℓ} (P : A → Type κ) (b : Bool) (x y : A) → P x → P y → P (if b then x else y)
either P true x y h k = h
either P false x y h k = k

pub purge-IsValid :
    (fails : Call → Bool) (now : ℕ) (db : Db) (id : ℕ)
    → IsValid db
    → IsValid (purge fails now db id)
unfolding purge delete_memory_for_installation delete_installation_account
purge-IsValid fails now db id v =
    let memory =
      either (λ (r : ℕ × Db). IsValid r.1) (fails memory_call) (0, db)
        (delete_memory_for_installation db id) v (frame-IsValid db _ _ _ _ _ v) in
    let tasks =
      either (λ (r : Result ℕ × Db). IsValid r.1) (fails tasks_call) (ok 0, _)
        (delete_tasks_for_installation _ id) memory (delete_tasks-IsValid _ id memory) in
    let accounts =
      either IsValid (fails forget_call) _ (delete_installation_account _ id).1 tasks
        (frame-IsValid _ _ _ _ _ _ tasks) in
    either IsValid (fails audit_call) _ _ accounts (record_api_read-IsValid now _ _ _ _ _ accounts)

pub plan_answer-IsValid :
    (fails : Call → Bool) (now : ℕ) (db : Db) (action reason : String) (t : Option Transition)
    → IsValid db
    → IsValid (plan_answer fails now db action reason t).db
unfolding plan_answer
plan_answer-IsValid fails now db action reason none v = v
plan_answer-IsValid fails now db action reason (some t) v =
    either IsValid (fails audit_call) db _ v (record_api_read-IsValid now db _ _ _ _ v)

pub Recorded-cases : (r : Recorded) → (r ≡ Recorded.new) ⊎ (r ≡ Recorded.duplicate)
Recorded-cases Recorded.new = inl refl
Recorded-cases Recorded.duplicate = inr refl

pub Sum-cases {ℓ κ} :
    {A : Type ℓ} {B : Type κ} (s : A ⊎ B) → ((a : A) × (s ≡ inl a)) ⊎ ((b : B) × (s ≡ inr b))
Sum-cases (inl a) = inl (a, refl)
Sum-cases (inr b) = inr (b, refl)

module _ (P : Db → Type 0) where
  pub answered-db :
      (r : Result Recorded × Db) (fresh again : Answer) → P r.1 → P (answered r fresh again).db
  answered-db (ok Recorded.new, db) fresh again h = h
  answered-db (ok Recorded.duplicate, db) fresh again h = h
  answered-db (err e, db) fresh again h = h

  pub enqueued-db : (r : Result Recorded × Db) → P r.1 → P (enqueued r).db
  enqueued-db (ok Recorded.new, db) h = h
  enqueued-db (ok Recorded.duplicate, db) h = h
  enqueued-db (err e, db) h = h

pub removed_for-IsValid :
    (fails : Call → Bool) (now : ℕ) (id : Option ℕ) (r : Result Recorded × Db)
    → IsValid r.1
    → IsValid (removed_for fails now id r).db
removed_for-IsValid fails now none (ok Recorded.new, db) v = v
removed_for-IsValid fails now (some id) (ok Recorded.new, db) v = purge-IsValid fails now db id v
removed_for-IsValid fails now id (ok Recorded.duplicate, db) v = v
removed_for-IsValid fails now id (err e, db) v = v

pub handle_marketplace_purchase-IsValid :
    (fails : Call → Bool) (now : ℕ) (db : Db) (d : Delivery) (payload : WebhookPayload)
    → IsValid db
    → IsValid (handle_marketplace_purchase fails now db d payload).db
unfolding handle_marketplace_purchase
handle_marketplace_purchase-IsValid fails now db d payload v =
    let t = transition_of payload in
    let reason = "marketplace_purchase:" <> get_or_else payload.action "" in
    let kept = record_delivery_with_plan-IsValid now db d reason (Option.map plan_record t) v in
    elim (Recorded-cases (record_delivery_with_plan now db d reason (Option.map plan_record t)).0) [
      | inl e ↦
          rw (e, handle_marketplace_purchase) (plan_answer-IsValid fails now _ _ reason t kept)
      | inr e ↦ rw (e, handle_marketplace_purchase) kept
    ]
