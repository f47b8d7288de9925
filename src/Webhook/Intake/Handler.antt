-- ===== src/Webhook/Intake/Handler.antt =====
-- A delivery that has been admitted: `handle_webhook` of crates/webhook/src/routes.rs. Times are in
-- nanoseconds. A handler is one step on the tables here; `Concurrent` has handlers that run at once.
use coven_github.Store.Audit.{record_api_read}
use coven_github.Webhook.Routing.{event_to_task}
use coven_github.Webhook.Intake.Marketplace.{handle_marketplace_purchase}
use coven_github.Webhook.Payload.{parse_event, is_action}
use coven_github.Store.Retention.{delete_tasks_for_installation}
use coven_github.Store.Deliveries.{record_delivery}
use coven_github.Store.Billing.{
  delete_installation_account, entitled, tasks_created_since, record_installation_account,
  plan_for_installation,
}
use coven_github.Store.Memory.{delete_memory_for_installation}
use coven_github.GitHub.{Task}
use coven_github.GitHub.Events.{GitHubEvent}
use coven_github.Config.{tier_of, limits_for, installation_listed, effective_limits, Config}
use coven_github.Webhook.Intake.{
  storage_unavailable, repeated, pong, passed_over, acknowledged, quiet, ok_with, answered,
  delivery_of, admit, Wire, Headers, Handled, Arrival, Answer, Call, audit_call, count_call,
  forget_call, memory_call, note_call, plan_call, record_call, tasks_call, unless_down,
}
use coven_github.Store.Schema.{
  is_none, err, ok, Routing, Result, Recorded, KindJson, Delivery, Db, AccountPlan,
}
use mathlib.Core.Option as Option
use coven_github.Base.{
  ℕ, Bool, List, Option, String, decimal, false, if◌then◌else◌, inl, inr, keep_if, leb, nat_Eq,
  none, not, some, text_Eq, true, ◌&&◌, ◌*◌, ◌-◌, ◌<>◌, ◌==◌, ◌^◌,
}

-- chrono::Duration::hours(24)
abbrev pub day : ℕ
day = 24 * 60 * 60 * 10 ^ 9

-- `installation` events keep the account behind the installation current.
unfoldable pub note_account : ℕ → Db → Arrival → Db
unfolding record_installation_account
note_account now db a =
    if a.event_type == "installation" && not (is_action a.payload "deleted")
    then elim a.payload.installation [
      | none ↦ db
      | some inst ↦ elim inst.account [
        | none ↦ db
        | some account ↦ record_installation_account now db inst.id account.id account.login
      ]
    ]
    else db

abbrev pub count_or_none : Result ℕ → ℕ
count_or_none (ok n) = n
count_or_none (err e) = 0

-- What an uninstall removes, and its audit entry; a part that fails is logged only.
unfoldable pub purge : (Call → Bool) → ℕ → Db → ℕ → Db
unfolding delete_memory_for_installation delete_tasks_for_installation delete_installation_account
purge fails now db id =
    let (memory, db1) =
      if fails memory_call then (0, db) else delete_memory_for_installation db id in
    let (removed, db2) =
      if fails tasks_call then (ok 0, db1) else delete_tasks_for_installation db1 id in
    let db3 = if fails forget_call then db2 else (delete_installation_account db2 id).1 in
    if fails audit_call
    then db3
    else record_api_read now db3 ("installation:" <> decimal id) (decimal id) "delete_on_uninstall"
        ("memory:" <> decimal memory <> ",tasks:" <> decimal (count_or_none removed))

abbrev pub purge_if_named : (Call → Bool) → ℕ → Db → Option ℕ → Db
purge_if_named fails now db none = db
purge_if_named fails now db (some id) = purge fails now db id

-- The answer to the record of an uninstall.
abbrev pub removed_for : (Call → Bool) → ℕ → Option ℕ → (Result Recorded × Db) → Handled
removed_for fails now id (ok Recorded.new, db) =
    quiet (ok_with acknowledged) (purge_if_named fails now db id)
removed_for fails now id (ok Recorded.duplicate, db) = quiet (ok_with repeated) db
removed_for fails now id (err e, db) = quiet storage_unavailable db

-- The plan that counts: one that is entitled.
unfoldable pub entitled_plan : Db → ℕ → Option AccountPlan
unfolding plan_for_installation entitled
entitled_plan db i = keep_if entitled (plan_for_installation db i)

-- `billing.require_plan`, for an installation with no entitled plan that no operator has listed
unfoldable pub lacks_plan : Config → Db → ℕ → Bool
unfolding entitled_plan installation_listed
lacks_plan cfg db i =
    cfg.require_plan && is_none (entitled_plan db i) && not (installation_listed cfg i)

unfoldable pub daily_cap : Config → Db → ℕ → Option ℕ
unfolding entitled_plan effective_limits limits_for tier_of
daily_cap cfg db i =
    (effective_limits (limits_for cfg i)
      (Option.map (λ (p : AccountPlan). tier_of p.tier) (entitled_plan db i))).max_tasks_per_day

unfoldable pub quota_reached : Config → ℕ → Db → ℕ → Bool
unfolding daily_cap tasks_created_since
quota_reached cfg now db i = elim (daily_cap cfg db i) [
  | none ↦ false
  | some cap ↦ leb cap (tasks_created_since db i (now - day))
]

abbrev pub is_ping : GitHubEvent → Bool
is_ping GitHubEvent.ping = true
is_ping _ = false

-- The answer to the record of a task: the worker is woken for a new one.
abbrev pub enqueued : (Result Recorded × Db) → Handled
enqueued (ok Recorded.new, db) = record { response = ok_with acknowledged; db = db; woken = true }
enqueued (ok Recorded.duplicate, db) = quiet (ok_with repeated) db
enqueued (err e, db) = quiet storage_unavailable db

-- The account of an `installation` event, unless its record fails, which is logged only.
unfoldable pub noted : (Call → Bool) → ℕ → Db → Arrival → Db
unfolding note_account
noted fails now db a = if fails note_call then db else note_account now db a

abbrev pub is_capped : Option ℕ → Bool
is_capped none = false
is_capped (some cap) = true

module _ (json : KindJson) (wire : Wire) (beyond : ℕ → Bool) where
  -- The record of a delivery that becomes no task.
  abbrev pub unrouted : ℕ → Db → Delivery → String → Answer → Answer → Handled
  unrouted now db d reason fresh again =
      unless_down (wire.fails record_call) db
        (answered (record_delivery json now db d (Routing.ignored reason)) fresh again)

  unfoldable pub handle_ping : ℕ → Db → Delivery → Handled
  unfolding record_delivery
  handle_ping now db d = unrouted now db d "ping" pong pong

  unfoldable pub handle_uninstall : ℕ → Db → Delivery → Option ℕ → Handled
  unfolding record_delivery purge
  handle_uninstall now db d id = unless_down (wire.fails record_call) db (
      removed_for wire.fails now id
        (record_delivery json now db d (Routing.ignored "installation_deleted")))

  unfoldable pub handle_task : Config → ℕ → Db → Delivery → Task → Handled
  unfolding record_delivery lacks_plan quota_reached
  handle_task cfg now db d t = unless_down (wire.fails plan_call) db (
      if lacks_plan cfg db t.installation_id
      then unrouted now db d "no_plan" (passed_over "no_plan") (passed_over "no_plan")
      else unless_down (is_capped (daily_cap cfg db t.installation_id) && wire.fails count_call) db
          (if quota_reached cfg now db t.installation_id
            then unrouted now db d "quota_exceeded" (passed_over "quota_exceeded")
                (passed_over "quota_exceeded")
            else unless_down (wire.fails record_call) db
                (enqueued (record_delivery json now db d (Routing.task t)))))

  unfoldable pub handle_event : Config → ℕ → Db → Delivery → Option Task → Handled
  unfolding handle_task
  handle_event cfg now db d none = unrouted now db d "unroutable" acknowledged acknowledged
  handle_event cfg now db d (some t) = handle_task cfg now db d t

  -- `id` is the id that a task is given.
  unfoldable pub dispatch : Config → ℕ → String → Db → Arrival → Handled
  unfolding delivery_of parse_event handle_ping handle_marketplace_purchase handle_uninstall noted
      event_to_task handle_event
  dispatch cfg now id db a =
      let event = parse_event a.event_type a.payload in
      let d = delivery_of wire a in
      if is_ping event
      then handle_ping now db d
      else if a.event_type == "marketplace_purchase"
      then unless_down (wire.fails record_call) db
          (handle_marketplace_purchase wire.fails now db d a.payload)
      else if a.event_type == "installation" && is_action a.payload "deleted"
      then handle_uninstall now db d d.installation_id
      else let known = noted wire.fails now db a in
        handle_event cfg now known d (event_to_task json beyond cfg known id event)

  unfoldable pub handle_webhook : Config → ℕ → String → Db → Headers → List ℕ → Handled
  unfolding admit dispatch
  handle_webhook cfg now id db headers body = elim (admit wire cfg.webhook_secret headers body) [
    | inl r ↦ quiet r db
    | inr a ↦ dispatch cfg now id db a
  ]
