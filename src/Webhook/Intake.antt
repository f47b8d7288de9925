-- ===== src/Webhook/Intake.antt =====
-- The checks and the answers of the webhook endpoint: the first half of `handle_webhook` of
-- crates/webhook/src/routes.rs, and `verify_signature` of crates/webhook/src/lib.rs.
pub mod Marketplace
pub mod Handler
pub mod Parts
pub mod Validity
pub mod Faults
pub mod Recording
pub mod Answers
pub mod Redelivery
pub mod Quota
pub mod Concurrent
use mathlib.Core.Option as Option
use coven_github.Webhook.Payload.{WebhookPayload, Repository, Installation}
use coven_github.Store.Schema.{err, ok, Result, Recorded, Delivery, Db}
use coven_github.Base.{
  ℕ, Bool, List, Option, String, false, if◌then◌else◌, inl, inr, is_empty_text, none, not, some,
  strip_prefix, trim, ◌<>◌, ◌>>=◌, ◌⊎◌,
}

-- The calls of the store in a handler that may fail for the disk. What the handler answers or logs
-- then is in its definition; the tables stay as they were.
pub data Call : Type 0 where
  note_call plan_call count_call record_call : Call
  memory_call tasks_call forget_call audit_call : Call

-- What the crates hmac, sha2, hex and serde_json do for the endpoint, and which calls of the store
-- fail. A key of any length serves HMAC.
pub record Wire : Type 0 where
  pub hex_decode : String → Option (List ℕ)
  pub hmac_verify : (secret : String) (payload tag : List ℕ) → Bool
  pub parse_payload : List ℕ → Option WebhookPayload
  pub payload_hash : List ℕ → String
  pub fails : Call → Bool

-- A header's value, if it is there and is text.
abbrev pub Headers : Type 0
Headers = String → Option String

-- The JSON body of an answer.
pub data Answer : Type 0 where
  failure : (message : String) → Answer
  acknowledged : Answer
  pong : Answer
  repeated : Answer
  passed_over : (reason : String) → Answer
  plan_recorded : (tier state : String) → Answer

pub record Response : Type 0 where
  pub status : ℕ
  pub body : Answer

abbrev pub refused : ℕ → String → Response
refused status message = record { status = status; body = failure message }

abbrev pub ok_with : Answer → Response
ok_with body = record { status = 200; body = body }

unfoldable pub storage_unavailable : Response
storage_unavailable = refused 500 "storage unavailable"

-- The answer, the tables, and whether the worker is woken.
pub record Handled : Type 0 where
  pub response : Response
  pub db : Db
  pub woken : Bool

abbrev pub quiet : Response → Db → Handled
quiet r db = record { response = r; db = db; woken = false }

-- A delivery's record, answered with `r` if it is new.
abbrev pub answered : (Result Recorded × Db) → Answer → Answer → Handled
answered (ok Recorded.new, db) fresh again = quiet (ok_with fresh) db
answered (ok Recorded.duplicate, db) fresh again = quiet (ok_with again) db
answered (err e, db) fresh again = quiet storage_unavailable db

-- An early return where a call of the store fails.
abbrev pub unless_down : Bool → Db → Handled → Handled
unless_down down db h = if down then quiet storage_unavailable db else h

pub record Arrival : Type 0 where
  pub event_type : String
  pub delivery_id : String
  pub payload : WebhookPayload
  pub body : List ℕ

-- A header that is not blank, trimmed.
abbrev pub filled : Option String → Option String
filled none = none
filled (some v) = let t = trim v in if is_empty_text t then none else some t

module _ (wire : Wire) where
  unfoldable pub verify_signature : String → List ℕ → String → Bool
  unfolding strip_prefix
  verify_signature secret payload header =
      elim (strip_prefix "sha256=" header >>= wire.hex_decode) [
        | none ↦ false
        | some tag ↦ wire.hmac_verify secret payload tag
      ]

  -- The checks of a request before its event is read.
  unfoldable pub admit : String → Headers → List ℕ → Response ⊎ Arrival
  unfolding verify_signature trim
  admit secret headers body = elim (headers "x-hub-signature-256") [
    | none ↦ inl (refused 401 "missing signature")
    | some sig ↦
        if not (verify_signature secret body sig)
        then inl (refused 401 "invalid signature")
        else elim (headers "x-github-event") [
          | none ↦ inl (refused 400 "missing event type")
          | some event_type ↦ elim (filled (headers "x-github-delivery")) [
            | none ↦ inl (refused 400 "missing delivery id")
            | some delivery_id ↦ elim (wire.parse_payload body) [
              | none ↦ inl (refused 400 "parse error")
              | some payload ↦ inr (record {
                event_type = event_type;
                delivery_id = delivery_id;
                payload = payload;
                body = body;
              })
            ]
          ]
        ]
  ]

  unfoldable pub delivery_of : Arrival → Delivery
  delivery_of a = record {
    delivery_id = a.delivery_id;
    event = a.event_type;
    action = a.payload.action;
    installation_id = Option.map (λ (i : Installation). i.id) a.payload.installation;
    repo = Option.map (λ (r : Repository). r.owner.login <> "/" <> r.name) a.payload.repository;
    payload_hash = wire.payload_hash a.body;
  }
