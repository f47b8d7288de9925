-- ===== src/Webhook/Intake/Concurrent.antt =====
-- Handlers that run at once (crates/webhook/src/routes.rs, lines 718 to 824). For a task, a handler
-- first reads the plan and the number of the day's tasks, and records its delivery afterwards, in
-- another transaction, so that transactions of other handlers may come between.
pub mod Capped
use coven_github.Webhook.Intake.Handler.{lacks_plan, quota_reached}
use coven_github.Store.Deliveries.{record_delivery}
use coven_github.Store.Schema.{Db, Delivery, KindJson, Routing}
use coven_github.GitHub.{Task}
use coven_github.Config.{Config}
use coven_github.Base.{ℕ, List, Option, [], if◌then◌else◌, none, some, suc, zero, ◌∷◌}

-- A handler between its reading and its record.
pub record Waiting : Type 0 where
  pub delivery : Delivery
  pub routing : Routing

-- The tables, and the handlers that have read and not yet recorded.
pub record Handlers : Type 0 where
  pub db : Db
  pub waiting : List Waiting

-- What a handler reads: the routing that it then records its delivery with.
unfoldable pub routing_for : Config → ℕ → Db → Task → Routing
unfolding lacks_plan quota_reached
routing_for cfg now db t =
    if lacks_plan cfg db t.installation_id
    then Routing.ignored "no_plan"
    else if quota_reached cfg now db t.installation_id
    then Routing.ignored "quota_exceeded"
    else Routing.task t

-- A turn of one of the handlers: a new one reads, or the k-th that waits records its delivery.
pub data Turn : Type 0 where
  reads : (delivery : Delivery) (t : Task) → Turn
  writes : (k : ℕ) → Turn

abbrev pub pick : ℕ → List Waiting → Option (Waiting × List Waiting)
pick k [] = none
pick zero (w ∷ ws) = some (w, ws)
pick (suc k) (w ∷ ws) =
    let rest = pick k ws in elim rest [ none ↦ none | some (v, vs) ↦ some (v, w ∷ vs) ]

unfoldable pub turn : KindJson → Config → ℕ → Handlers → Turn → Handlers
unfolding routing_for record_delivery
turn json cfg now s (reads d t) = record s {
  waiting = record { delivery = d; routing = routing_for cfg now s.db t } ∷ s.waiting;
}
turn json cfg now s (writes k) = elim (pick k s.waiting) [
  | none ↦ s
  | some (w, rest) ↦ record {
    db = (record_delivery json now s.db w.delivery w.routing).1;
    waiting = rest;
  }
]

-- Turns, each with its time.
unfoldable pub turns : KindJson → Config → Handlers → List (ℕ × Turn) → Handlers
unfolding turn
turns json cfg s [] = s
turns json cfg s ((now, e) ∷ es) = turns json cfg (turn json cfg now s e) es
