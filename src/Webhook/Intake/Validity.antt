-- ===== src/Webhook/Intake/Validity.antt =====
-- The endpoint keeps the store's tables well formed (crates/webhook/src/routes.rs).
use coven_github.Webhook.Intake.Parts.{
  either, Sum-cases, answered-db, enqueued-db, handle_marketplace_purchase-IsValid,
  note_account-IsValid, removed_for-IsValid,
}
use coven_github.Webhook.Routing.{event_to_task}
use coven_github.Webhook.Payload.Origin.{parse_event-Origin}
use coven_github.Webhook.Routing.Authority.{event_to_task-Admitted}
use coven_github.GitHub.{Task}
use coven_github.Config.{Config}
use coven_github.Webhook.Payload.{is_action, parse_event}
use coven_github.Webhook.Intake.Handler.{
  dispatch, handle_event, handle_ping, handle_task, handle_uninstall, handle_webhook, is_ping,
  lacks_plan, quota_reached, noted, unrouted,
}
use coven_github.Store.Validity.Recording.{record_delivery-IsValid}
use coven_github.Store.Validity.{IsValid}
use coven_github.Webhook.Intake.{
  Arrival, Answer, Headers, Wire, admit, delivery_of, acknowledged, passed_over, pong, Call,
  Handled, note_call, plan_call, quiet, record_call, storage_unavailable, unless_down,
}
use coven_github.Store.Schema.{Delivery, Db, KindJson, Routing}
use coven_github.Base.{
  ℕ, Bool-cases, List, Option, String, inl, inr, nat_Eq, none, some, text_Eq, ◌&&◌, ◌==◌, AllSome,
  AllSome_found, Bool, ◌≡◌, ap, sym,
}

unless-IsValid :
    (down : Bool) (db : Db) (h : Handled)
    → IsValid db
    → IsValid h.db
    → IsValid (unless_down down db h).db
unless-IsValid down db h v k =
    either (λ (x : Handled). IsValid x.db) down (quiet storage_unavailable db) h v k

noted-IsValid :
    (fails : Call → Bool) (now : ℕ) (db : Db) (a : Arrival)
    → IsValid db
    → IsValid (noted fails now db a)
unfolding noted
noted-IsValid fails now db a v =
    either IsValid (fails note_call) db _ v (note_account-IsValid now db a v)

module _ (json : KindJson) (wire : Wire) (beyond : ℕ → Bool) (cfg : Config) (now : ℕ) where
  ignored-IsValid :
      (db : Db) (d : Delivery) (reason : String) (fresh again : Answer)
      → IsValid db
      → IsValid (unrouted json wire beyond now db d reason fresh again).db
  ignored-IsValid db d reason fresh again v = unless-IsValid (wire.fails record_call) db _ v (
      answered-db IsValid _ fresh again
        (record_delivery-IsValid json now db d (Routing.ignored reason) v tt))

  handle_event-IsValid :
      (db : Db) (d : Delivery) (t : Option Task)
      → IsValid db
      → AllSome (λ (u : Task). d.installation_id ≡ some u.installation_id) t
      → IsValid (handle_event json wire beyond cfg now db d t).db
  unfolding handle_event handle_task
  handle_event-IsValid db d none v owner =
      ignored-IsValid db d "unroutable" acknowledged acknowledged v
  handle_event-IsValid db d (some t) v owner =
      let sound = λ (h : Handled). IsValid h.db in
      unless-IsValid (wire.fails plan_call) db _ v (
        either sound (lacks_plan cfg db t.installation_id) _ _
          (ignored-IsValid db d "no_plan" (passed_over "no_plan") (passed_over "no_plan") v)
          (unless-IsValid _ db _ v (
            either sound (quota_reached cfg now db t.installation_id) _ _
              (ignored-IsValid db d "quota_exceeded" (passed_over "quota_exceeded")
                (passed_over "quota_exceeded") v)
              (unless-IsValid (wire.fails record_call) db _ v (
                enqueued-db IsValid _
                  (record_delivery-IsValid json now db d (Routing.task t) v owner))))))

  -- A task's installation is its delivery's.
  pub task-owner :
      (db : Db) (id : String) (a : Arrival)
      → AllSome
          (λ (t : Task). (delivery_of wire a).installation_id ≡ some t.installation_id)
          (event_to_task json beyond cfg db id (parse_event a.event_type a.payload))
  unfolding delivery_of
  task-owner db id a =
      AllSome_found (λ (t : Task). _)
        (event_to_task json beyond cfg db id (parse_event a.event_type a.payload))
        (λ t h.
          let admitted = event_to_task-Admitted json beyond cfg db id _ t h in
          let (inst, repo, i, r, same) =
            rw admitted.target at (parse_event-Origin a.payload a.event_type) in
          rw i (ap (λ (x : ℕ × String × String). some x.0) (sym same)))

  dispatch-IsValid :
      (id : String) (db : Db) (a : Arrival)
      → IsValid db
      → IsValid (dispatch json wire beyond cfg now id db a).db
  unfolding dispatch handle_ping handle_uninstall
  dispatch-IsValid id db a v =
      let d = delivery_of wire a in
      elim (Bool-cases (is_ping (parse_event a.event_type a.payload))) [
        | inl e ↦ rw e (ignored-IsValid db d "ping" pong pong v)
        | inr e ↦ elim (Bool-cases (a.event_type == "marketplace_purchase")) [
          | inl m ↦
              rw (e, m)
                (unless-IsValid (wire.fails record_call) db _ v
                  (handle_marketplace_purchase-IsValid wire.fails now db d a.payload v))
          | inr m ↦
              elim (Bool-cases (a.event_type == "installation" && is_action a.payload "deleted")) [
                | inl u ↦
                    rw (e, m, u)
                      (unless-IsValid (wire.fails record_call) db _ v (
                        removed_for-IsValid wire.fails now d.installation_id _ (
                          record_delivery-IsValid json now db d
                            (Routing.ignored "installation_deleted") v tt)))
                | inr u ↦
                    let known = noted wire.fails now db a in
                    rw (e, m, u)
                      (handle_event-IsValid known d _ (noted-IsValid wire.fails now db a v)
                        (task-owner known id a))
              ]
        ]
      ]

-- Whatever request the endpoint is sent, it leaves well-formed tables well formed.
pub handle_webhook-IsValid :
    (json : KindJson) (wire : Wire) (beyond : ℕ → Bool) (cfg : Config) (now : ℕ) (id : String)
    (db : Db) (headers : Headers) (body : List ℕ)
    → IsValid db
    → IsValid (handle_webhook json wire beyond cfg now id db headers body).db
unfolding handle_webhook
handle_webhook-IsValid json wire beyond cfg now id db headers body v =
    elim (Sum-cases (admit wire cfg.webhook_secret headers body)) [
      | inl (r, e) ↦ rw (e, handle_webhook) v
      | inr (a, e) ↦ rw (e, handle_webhook) (dispatch-IsValid json wire beyond cfg now id db a v)
    ]
