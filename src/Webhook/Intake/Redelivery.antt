-- ===== src/Webhook/Intake/Redelivery.antt =====
-- A delivery that GitHub sends again (crates/webhook/src/routes.rs).
use mathlib.Core.Bool.{false≢true}
use coven_github.Webhook.Intake.Parts.{either}
use mathlib.Core.Option as Option
use coven_github.Webhook.Routing.{event_to_task}
use coven_github.Webhook.Intake.Faults.{is_uninstall, AllUp, noted-Unmoved}
use coven_github.Webhook.Intake.Marketplace.{
  handle_marketplace_purchase, plan_record, transition_of,
}
use coven_github.Store.Deliveries.{seen}
use coven_github.Webhook.Payload.{parse_event, WebhookPayload}
use coven_github.Store.Billing.{record_delivery_with_plan}
use coven_github.Webhook.Intake.Handler.{
  is_ping, quota_reached, lacks_plan, handle_uninstall, handle_task, handle_ping, handle_webhook,
  handle_event, dispatch, noted, unrouted,
}
use coven_github.Store.Deliveries.Once.{record_delivery-duplicate}
use coven_github.GitHub.{Task}
use coven_github.Store.Schema.{Routing, KindJson, Delivery, Db, AccountPlan, duplicate, Recorded}
use coven_github.Config.{Config}
use coven_github.Webhook.Intake.{
  delivery_of, admit, Wire, Headers, Handled, Arrival, ok_with, quiet, repeated, Answer, Call,
  acknowledged, count_call, passed_over, plan_call, pong, record_call, unless_down,
}
use coven_github.Base.{
  ℕ, Bool, Bool-cases, List, Option, String, ap, false, inl, inr, nat_Eq, none, refl, some, text_Eq,
  true, ◌==◌, ◌∙◌, ◌≡◌, get_or_else, ◌<>◌, arith, sym,
}

-- The tables are as they were, and the worker sleeps on; the answer is 200 if the store is up.
abbrev Kept : Wire → Db → Handled → Type 0
Kept wire db h = (h.db ≡ db) × (AllUp wire → h.response.status ≡ 200) × (h.woken ≡ false)

-- So, save the accounts behind installations.
abbrev pub Unmoved : Wire → Db → Handled → Type 0
Unmoved wire db h =
    (h.db ≡ record db { accounts = h.db.accounts })
    × (AllUp wire → h.response.status ≡ 200)
    × (h.woken ≡ false)

unless-Kept :
    (wire : Wire) (down : Bool) (db : Db) (h : Handled)
    → (AllUp wire → down ≡ false)
    → Kept wire db h
    → Kept wire db (unless_down down db h)
unless-Kept wire true db h up k = (refl, λ all. absurd (false≢true (sym (up all))), refl)
unless-Kept wire false db h up k = k

with_plan-duplicate :
    (now : ℕ) (db : Db) (d : Delivery) (reason : String) (plan : Option AccountPlan)
    → seen db d.delivery_id ≡ true
    → record_delivery_with_plan now db d reason plan ≡ (duplicate, db)
unfolding record_delivery_with_plan
with_plan-duplicate now db d reason plan e = rw e refl

purchase-duplicate :
    (fails : Call → Bool) (now : ℕ) (db : Db) (d : Delivery) (payload : WebhookPayload)
    → seen db d.delivery_id ≡ true
    → handle_marketplace_purchase fails now db d payload ≡ quiet (ok_with repeated) db
unfolding handle_marketplace_purchase
purchase-duplicate fails now db d payload e =
    let reason = "marketplace_purchase:" <> get_or_else payload.action "" in
    let plan = Option.map plan_record (transition_of payload) in
    let same = with_plan-duplicate now db d reason plan e in
    let first = ap (λ (r : Recorded × Db). r.0) same in
    let second = ap (λ (r : Recorded × Db). r.1) same in
    rw (first, handle_marketplace_purchase) (ap (quiet (ok_with repeated)) second)

Kept-Unmoved : (wire : Wire) (db : Db) (h : Handled) → Kept wire db h → Unmoved wire db h
Kept-Unmoved wire db h (same, status, asleep) = (rw same refl, status, asleep)

module _ (json : KindJson) (wire : Wire) (beyond : ℕ → Bool) (cfg : Config) (now : ℕ) where
  unrouted-Kept :
      (db : Db) (d : Delivery) (reason : String) (fresh again : Answer)
      → seen db d.delivery_id ≡ true
      → Kept wire db (unrouted json wire beyond now db d reason fresh again)
  unrouted-Kept db d reason fresh again e =
      unless-Kept wire (wire.fails record_call) db _ (λ up. up record_call)
        (rw (record_delivery-duplicate json now db d (Routing.ignored reason) e)
          (refl, (λ up. refl), refl))

  handle_event-duplicate :
      (db : Db) (d : Delivery) (t : Option Task)
      → seen db d.delivery_id ≡ true
      → Kept wire db (handle_event json wire beyond cfg now db d t)
  unfolding handle_event handle_task
  handle_event-duplicate db d none e = unrouted-Kept db d "unroutable" acknowledged acknowledged e
  handle_event-duplicate db d (some t) e =
      let kept = Kept wire db in
      unless-Kept wire (wire.fails plan_call) db _ (λ up. up plan_call)
        (either kept (lacks_plan cfg db t.installation_id) _ _
          (unrouted-Kept db d "no_plan" (passed_over "no_plan") (passed_over "no_plan") e)
          (unless-Kept wire _ db _ (λ up. ground (arith, up count_call))
            (either kept (quota_reached cfg now db t.installation_id) _ _
              (unrouted-Kept db d "quota_exceeded" (passed_over "quota_exceeded")
                (passed_over "quota_exceeded") e)
              (unless-Kept wire (wire.fails record_call) db _ (λ up. up record_call)
                (rw (record_delivery-duplicate json now db d (Routing.task t) e)
                  (refl, (λ up. refl), refl))))))

  dispatch-duplicate :
      (id : String) (db : Db) (a : Arrival)
      → seen db a.delivery_id ≡ true
      → Unmoved wire db (dispatch json wire beyond cfg now id db a)
  unfolding dispatch handle_ping handle_uninstall delivery_of
  dispatch-duplicate id db a e =
      let d = delivery_of wire a in
      let known = noted wire.fails now db a in
      elim (Bool-cases (is_ping (parse_event a.event_type a.payload))) [
        | inl p ↦ rw p (
            Kept-Unmoved wire db (handle_ping json wire beyond now db d)
              (unrouted-Kept db d "ping" pong pong e))
        | inr p ↦ elim (Bool-cases (a.event_type == "marketplace_purchase")) [
          | inl m ↦
              rw (p, m)
                (Kept-Unmoved wire db
                  (unless_down (wire.fails record_call) db
                    (handle_marketplace_purchase wire.fails now db d a.payload))
                  (unless-Kept wire (wire.fails record_call) db _ (λ up. up record_call)
                    (rw (purchase-duplicate wire.fails now db d a.payload e)
                      (refl, (λ up. refl), refl))))
          | inr m ↦ elim (Bool-cases (is_uninstall a)) [
            | inl u ↦
                rw (p, m, u)
                  (Kept-Unmoved wire db
                    (handle_uninstall json wire beyond now db d d.installation_id)
                    (unless-Kept wire (wire.fails record_call) db _ (λ up. up record_call)
                      (rw
                        (record_delivery-duplicate json now db d
                          (Routing.ignored "installation_deleted") e)
                        (refl, (λ up. refl), refl))))
            | inr u ↦
                let (same, status, asleep) =
                  handle_event-duplicate known d
                    (event_to_task json beyond cfg known id (parse_event a.event_type a.payload))
                    (ap (λ (x : Db). seen x a.delivery_id) (noted-Unmoved wire.fails now db a)
                      ∙ e) in
                rw (p, m, u) (rw same (noted-Unmoved wire.fails now db a), status, asleep)
          ]
        ]
      ]

-- A request that passes the checks with a delivery id that is on record wakes no worker and leaves
-- every table as it was, save the accounts behind the installations, whichever calls of the store
-- fail; if none does, it is answered with 200.
pub handle_webhook-duplicate :
    (json : KindJson) (wire : Wire) (beyond : ℕ → Bool) (cfg : Config) (now : ℕ) (id : String)
    (db : Db) (headers : Headers) (body : List ℕ) (a : Arrival)
    → admit wire cfg.webhook_secret headers body ≡ inr a
    → seen db a.delivery_id ≡ true
    → let h = handle_webhook json wire beyond cfg now id db headers body in
      (h.db ≡ record db { accounts = h.db.accounts })
      × (AllUp wire → h.response.status ≡ 200)
      × (h.woken ≡ false)
unfolding handle_webhook
handle_webhook-duplicate json wire beyond cfg now id db headers body a e known =
    rw (e, handle_webhook) (dispatch-duplicate json wire beyond cfg now id db a known)
