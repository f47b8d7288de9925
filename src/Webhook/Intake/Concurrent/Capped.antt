-- ===== src/Webhook/Intake/Concurrent/Capped.antt =====
-- How many tasks concurrent handlers let in (crates/webhook/src/routes.rs).
use coven_github.Webhook.Intake.Concurrent.{
  Waiting, Handlers, Turn, reads, writes, turn, turns, routing_for,
}
use coven_github.Webhook.Intake.Faults.{AllUp}
use coven_github.Webhook.Intake.Quota.{enqueued-tables}
use coven_github.Webhook.Intake.{Answer, answered, count_call, plan_call, record_call}
use coven_github.Webhook.Intake.Handler.{
  daily_cap, handle_task, lacks_plan, quota_reached, day, is_capped,
}
use coven_github.Webhook.Intake.{Wire}
use coven_github.Store.Billing.{tasks_created_since}
use coven_github.Store.Schema.{Db, Delivery, KindJson, Routing, Recorded, Result, err, ok}
use coven_github.GitHub.{Task}
use coven_github.Config.{Config}
use coven_github.Base.{
  ℕ, Bool, List, Bool-cases, count_where, [], arith, false, if◌then◌else◌, inl, inr, nat_Eq, refl,
  some, text_Eq, ◌+◌, ◌==◌, ◌∷◌, ◌≡◌, ◌≤◌, ◌-◌, ◌<◌, ◌&&◌,
}

answered-tables :
    (r : Result Recorded × Db) (fresh again : Answer) → (answered r fresh again).db ≡ r.1
answered-tables (ok Recorded.new, db) fresh again = refl
answered-tables (ok Recorded.duplicate, db) fresh again = refl
answered-tables (err e, db) fresh again = refl

-- A handler that runs alone, with no call of the store that fails, reads and records as the two
-- turns do.
handle_task-turns :
    (json : KindJson) (wire : Wire) (beyond : ℕ → Bool) (cfg : Config) (now : ℕ) (db : Db)
    (d : Delivery) (t : Task)
    → AllUp wire
    → (handle_task json wire beyond cfg now db d t).db
      ≡ (turns json cfg
          (record { db = db; waiting = [] })
          ((now, reads d t) ∷ (now, writes 0) ∷ [])).db
unfolding handle_task turns turn routing_for
handle_task-turns json wire beyond cfg now db d t up =
    let record_up = up record_call in
    let counted : (is_capped (daily_cap cfg db t.installation_id) && wire.fails count_call)
        ≡ false =
      ground (arith, up count_call) in
    elim (Bool-cases (lacks_plan cfg db t.installation_id)) [
      | inl l ↦ rw (up plan_call, l, record_up, handle_task, routing_for) (answered-tables _ _ _)
      | inr l ↦ elim (Bool-cases (quota_reached cfg now db t.installation_id)) [
        | inl q ↦
            rw (up plan_call, l, counted, q, record_up, handle_task, routing_for)
              (answered-tables _ _ _)
        | inr q ↦
            rw (up plan_call, l, counted, q, record_up, handle_task, routing_for)
              (enqueued-tables _)
      ]
    ]

abbrev pub is_task_of : ℕ → Routing → Bool
is_task_of i (Routing.task t) = t.installation_id == i
is_task_of i (Routing.ignored reason) = false

-- The handlers that wait to record a task of the installation.
unfoldable pub waits : ℕ → List Waiting → ℕ
unfolding count_where
waits i ws = count_where (λ (w : Waiting). is_task_of i w.routing) ws

abbrev one_if : Bool → ℕ
one_if b = if b then 1 else 0

-- The times do not go back, and at most `n` handlers wait to record a task of the installation.
abbrev pub InFlight : KindJson → Config → ℕ → ℕ → ℕ → Handlers → List (ℕ × Turn) → Type 0
InFlight json cfg n i last s [] = Unit
InFlight json cfg n i last s ((now, e) ∷ es) =
    (last ≤ now)
    × (waits i (turn json cfg now s e).waiting ≤ n)
    × InFlight json cfg n i now (turn json cfg now s e) es

-- The time of the last turn.
abbrev pub ends : ℕ → List (ℕ × Turn) → ℕ
ends last [] = last
ends last ((now, e) ∷ es) = ends now es

-- The tasks of the day and those that wait exceed the cap by less than `n`.
abbrev Room : Config → ℕ → ℕ → ℕ → ℕ → Handlers → Type 0
Room cfg n i cap now s =
    (daily_cap cfg s.db i ≡ some cap)
    × (tasks_created_since s.db i (now - day) + waits i s.waiting < cap + n)
