-- ===== src/Worker/Pipeline/Commands.antt =====
-- The commands that need no session: the first match of `execute_task_with_minter` in
-- crates/worker/src/lib.rs. A reply is posted, or the queued reviews of a pull request are
-- cancelled, unless the commander may not write.
use coven_github.Worker.Pipeline.{terminal, review_key, Stopped, say}
use coven_github.Worker.Surface.{commander_below_write, decline_body}
use coven_github.Worker.Hub.{Hub, TokenRole, upsert, got, lost, Reply}
use coven_github.GitHub.{Task}
use coven_github.Config.{FamiliarConfig}
use coven_github.Store.Schema.{Db, TerminalState}
use coven_github.Store.Queue.{cancel_queued, finish}
use coven_github.Base.{
  ℕ, String, Option, Bool, decimal, if◌then◌else◌, none, some, trim_end_matches, ◌<>◌,
}

unfoldable pub cancelled_text : String → ℕ → ℕ → String
unfolding trim_end_matches
cancelled_text bot_username yielded pr_number =
    "Cancelled "
    <> decimal yielded
    <> " queued review(s) for PR #"
    <> decimal pr_number
    <> ". Work already running will finish; `@"
    <> trim_end_matches "[bot]" bot_username
    <> " review` re-arms the lane."

module _ {W : Type 0} (hub : Hub W) (now : ℕ) (familiar : FamiliarConfig) (t : Task) where
  abbrev stop : Option String → Db → W → Stopped W
  stop failed db w = record { failed = failed; db = db; world = w }

  -- The comment, and the task's end; a comment that fails leaves the task running.
  unfoldable pub answer_and_finish : Db → W → ℕ → String → Stopped W
  unfolding finish upsert
  answer_and_finish db w n reply =
      let (posted, w1) = say hub familiar t w n reply in
      elim posted [
        | lost e ↦ stop (some e) db w1
        | got _ ↦ stop none (finish now db t.id (terminal TerminalState.completed none none)) w1
      ]

  -- The gate of a command: an error, or whether the commander is below write.
  unfoldable pub gate_command : W → Reply Bool × W
  unfolding commander_below_write
  gate_command w =
      let (minted, w1) = hub.mint w TokenRole.orchestration in
      elim minted [ lost e ↦ (lost e, w1) | got _ ↦ commander_below_write hub w1 t ]

  unfoldable pub run_command_reply : Db → W → ℕ → String → Stopped W
  unfolding gate_command answer_and_finish decline_body
  run_command_reply db w issue_number body =
      let (gated, w1) = gate_command w in
      elim gated [
        | lost e ↦ stop (some e) db w1
        | got below ↦ answer_and_finish db w1 issue_number (if below then decline_body t else body)
      ]

  unfoldable pub run_cancel_reviews : Db → W → ℕ → Stopped W
  unfolding gate_command answer_and_finish decline_body cancel_queued cancelled_text review_key
  run_cancel_reviews db w pr_number =
      let (gated, w1) = gate_command w in
      elim gated [
        | lost e ↦ stop (some e) db w1
        | got below ↦
            let (yielded, db1) = cancel_queued now db (review_key t pr_number) in
            if below
            then answer_and_finish db w1 pr_number (decline_body t)
            else answer_and_finish db1 w1 pr_number
                (cancelled_text familiar.bot_username yielded pr_number)
      ]
