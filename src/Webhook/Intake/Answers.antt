-- ===== src/Webhook/Intake/Answers.antt =====
-- What the endpoint answers, and what it has then recorded (crates/webhook/src/routes.rs).
use coven_github.Webhook.Intake.Faults.{AllUp, is_uninstall, noted-Unmoved, noted-tasks}
use coven_github.Webhook.Intake.Recording.{
  Settled, Held, answered-Settled, enqueued-Settled, ignored-Held, purchase-seen, task-Held,
  unless-Settled,
}
use mathlib.Core.Bool.{false≢true}
use mathlib.Core.Path.{subst}
use coven_github.Webhook.Routing.{event_to_task}
use coven_github.Webhook.Routing.Authority.{event_to_task-Admitted}
use coven_github.Webhook.Payload.{parse_event}
use coven_github.Webhook.Intake.Parts.{either}
use coven_github.GitHub.Events.{GitHubEvent}
use coven_github.Config.{Config}
use coven_github.Store.Deliveries.{has_task, seen, record_delivery}
use coven_github.Webhook.Intake.Handler.{
  removed_for, dispatch, handle_event, handle_ping, handle_task, handle_uninstall, handle_webhook,
  is_ping, lacks_plan, quota_reached, noted, unrouted,
}
use coven_github.GitHub.{Task}
use coven_github.Store.Schema.{err, ok, Routing, Result, Recorded, KindJson, Delivery, Db}
use coven_github.Webhook.Intake.{
  Handled, Answer, Arrival, Headers, Wire, acknowledged, admit, delivery_of, passed_over, pong,
  Call, count_call, plan_call, record_call, storage_unavailable, unless_down,
}
use coven_github.Base.{
  ℕ, AllSome, Bool-cases, Option, String, arith, false, inl, inr, nat_Eq, none, refl, some, text_Eq,
  true, ◌≡◌, AllSome_found, Bool, List, ◌==◌, sym, ◌∙◌, ◌⊎◌,
}

-- What is told of a request: 200 with its delivery on record, unless it is an uninstall; or 500, and
-- then the worker sleeps on and no table changes but the accounts behind installations.
abbrev Answered : Type 0 → Arrival → Db → Handled → Type 0
Answered Up a db h =
    (((h.response.status ≡ 200) × (is_uninstall a ≡ false → seen h.db a.delivery_id ≡ true))
      ⊎ ((h.response.status ≡ 500)
          × (h.woken ≡ false)
          × (h.db ≡ record db { accounts = h.db.accounts })))
    × (Up → h.response.status ≡ 200)

Settled-Answered :
    (Up : Type 0) (a : Arrival) (db known : Db) (h : Handled)
    → known ≡ record db { accounts = known.accounts }
    → Settled Up a.delivery_id known h
    → Answered Up a db h
Settled-Answered Up a db known h same (settled, up) = elim settled [
  | inl (status, held) ↦ (inl (status, λ _. held), up)
  | inr (status, asleep, kept) ↦ (inr (status, asleep, rw kept same), up)
]

removed_for-Answered :
    (Up : Type 0) (fails : Call → Bool) (now : ℕ) (i : Option ℕ) (a : Arrival) (db : Db)
    (r : Result Recorded × Db)
    → is_uninstall a ≡ true
    → Held Up a.delivery_id db r
    → Answered Up a db (removed_for fails now i r)
unfolding storage_unavailable
removed_for-Answered Up fails now i a db (ok Recorded.new, after) u h =
    (inl (refl, λ other. absurd (false≢true (sym other ∙ u))), λ up. refl)
removed_for-Answered Up fails now i a db (ok Recorded.duplicate, after) u h =
    (inl (refl, λ other. h), λ up. refl)
removed_for-Answered Up fails now i a db (err e, after) u (same, down) =
    (inr (refl, refl, rw same refl), λ up. absurd (down up))

unless-Answered :
    (Up : Type 0) (a : Arrival) (down : Bool) (db : Db) (h : Handled)
    → (Up → down ≡ false)
    → Answered Up a db h
    → Answered Up a db (unless_down down db h)
unfolding storage_unavailable
unless-Answered Up a true db h up k =
    (inr (refl, refl, refl), λ all. absurd (false≢true (sym (up all))))
unless-Answered Up a false db h up k = k

module _ (json : KindJson) (wire : Wire) (beyond : ℕ → Bool) (cfg : Config) (now : ℕ) (Up : Type 0)
    (all : Up → AllUp wire) where
  unrouted-Settled :
      (db : Db) (d : Delivery) (reason : String) (fresh again : Answer)
      → Settled Up d.delivery_id db (unrouted json wire beyond now db d reason fresh again)
  unrouted-Settled db d reason fresh again =
      unless-Settled Up d.delivery_id db (wire.fails record_call) _ (λ up. all up record_call)
        (answered-Settled Up d.delivery_id db _ fresh again (ignored-Held Up json now db d reason))

  handle_event-Settled :
      (db : Db) (d : Delivery) (t : Option Task)
      → (Up → AllSome (λ (u : Task). has_task u.id db.tasks ≡ false) t)
      → Settled Up d.delivery_id db (handle_event json wire beyond cfg now db d t)
  unfolding handle_event handle_task
  handle_event-Settled db d none fresh =
      unrouted-Settled db d "unroutable" acknowledged acknowledged
  handle_event-Settled db d (some t) fresh =
      let settled = Settled Up d.delivery_id db in
      let unless = unless-Settled Up d.delivery_id db in
      unless (wire.fails plan_call) _ (λ up. all up plan_call)
        (either settled (lacks_plan cfg db t.installation_id) _ _
          (unrouted-Settled db d "no_plan" (passed_over "no_plan") (passed_over "no_plan"))
          (unless _ _ (λ up. ground (arith, all up count_call))
            (either settled (quota_reached cfg now db t.installation_id) _ _
              (unrouted-Settled db d "quota_exceeded" (passed_over "quota_exceeded")
                (passed_over "quota_exceeded"))
              (unless (wire.fails record_call) _ (λ up. all up record_call)
                (enqueued-Settled Up d.delivery_id db _ (task-Held Up json now db d t fresh))))))

  event-fresh :
      (id : String) (db : Db) (e : GitHubEvent)
      → has_task id db.tasks ≡ false
      → AllSome
          (λ (u : Task). has_task u.id db.tasks ≡ false)
          (event_to_task json beyond cfg db id e)
  event-fresh id db e fresh =
      AllSome_found (λ (u : Task). has_task u.id db.tasks ≡ false)
        (event_to_task json beyond cfg db id e)
        (λ t h. rw ((event_to_task-Admitted json beyond cfg db id e t h).identified) fresh)

  handle_uninstall-Answered :
      (db : Db) (a : Arrival)
      → is_uninstall a ≡ true
      → let d = delivery_of wire a in
        Answered Up a db (handle_uninstall json wire beyond now db d d.installation_id)
  unfolding handle_uninstall delivery_of
  handle_uninstall-Answered db a u =
      let d = delivery_of wire a in
      let r = record_delivery json now db d (Routing.ignored "installation_deleted") in
      unless-Answered Up a (wire.fails record_call) db
        (removed_for wire.fails now d.installation_id r) (λ up. all up record_call)
        (removed_for-Answered Up wire.fails now d.installation_id a db r u
          (ignored-Held Up json now db d "installation_deleted"))

  dispatch-Answered :
      (id : String) (db : Db) (a : Arrival)
      → (Up → has_task id db.tasks ≡ false)
      → Answered Up a db (dispatch json wire beyond cfg now id db a)
  unfolding dispatch handle_ping handle_uninstall delivery_of
  dispatch-Answered id db a fresh =
      let d = delivery_of wire a in
      let known = noted wire.fails now db a in
      elim (Bool-cases (is_ping (parse_event a.event_type a.payload))) [
        | inl e ↦ rw e (
            Settled-Answered Up a db db (handle_ping json wire beyond now db d) refl
              (unrouted-Settled db d "ping" pong pong))
        | inr e ↦ elim (Bool-cases (a.event_type == "marketplace_purchase")) [
          | inl m ↦
              let (status, held) = purchase-seen wire.fails now db d a.payload in
              rw (e, m)
                (unless-Answered Up a (wire.fails record_call) db _ (λ up. all up record_call)
                  (inl (status, λ _. held), λ up. status))
          | inr m ↦ elim (Bool-cases (is_uninstall a)) [
            | inl u ↦
                let uninstalled : dispatch json wire beyond cfg now id db a
                    ≡ handle_uninstall json wire beyond now db d d.installation_id =
                  rw (e, m, u) refl in
                subst (Answered Up a db) (sym uninstalled) (handle_uninstall-Answered db a u)
            | inr u ↦
                let routed =
                  event_to_task json beyond cfg known id (parse_event a.event_type a.payload) in
                let h = handle_event json wire beyond cfg now known d routed in
                let handled : dispatch json wire beyond cfg now id db a ≡ h = rw (e, m, u) refl in
                subst (Answered Up a db) (sym handled) (
                  Settled-Answered Up a db known h (noted-Unmoved wire.fails now db a) (
                    handle_event-Settled known d routed (λ up.
                      event-fresh id known _ (rw (noted-tasks wire.fails now db a) (fresh up)))))
          ]
        ]
      ]

-- A request that passes the checks is answered with 200 or 500, whichever calls of the store fail.
-- With 200, its delivery is on record, unless it is an uninstall. With 500, the worker sleeps on and
-- no table changes but the accounts behind installations, so that a redelivery is new. It is 200 if
-- no call fails and the id for its task is not taken.
pub handle_webhook-answered :
    (json : KindJson) (wire : Wire) (beyond : ℕ → Bool) (cfg : Config) (now : ℕ) (id : String)
    (db : Db) (headers : Headers) (body : List ℕ) (a : Arrival)
    → admit wire cfg.webhook_secret headers body ≡ inr a
    → let h = handle_webhook json wire beyond cfg now id db headers body in
      (((h.response.status ≡ 200) × (is_uninstall a ≡ false → seen h.db a.delivery_id ≡ true))
        ⊎ ((h.response.status ≡ 500)
            × (h.woken ≡ false)
            × (h.db ≡ record db { accounts = h.db.accounts })))
      × (AllUp wire × (has_task id db.tasks ≡ false) → h.response.status ≡ 200)
unfolding handle_webhook
handle_webhook-answered json wire beyond cfg now id db headers body a e =
    rw (e, handle_webhook)
      (dispatch-Answered json wire beyond cfg now (AllUp wire × (has_task id db.tasks ≡ false))
        (λ up. up.0) id db a (λ up. up.1))
