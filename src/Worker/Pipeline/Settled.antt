-- ===== src/Worker/Pipeline/Settled.antt =====
-- What a run leaves behind (crates/worker/src/lib.rs): a published outcome completes the Check Run and
-- ends the task, and a command without write access changes nothing else.
use coven_github.Worker.Surface.{commander_below_write}
use coven_github.Worker.Hub.{TokenRole, marker, upsert, Reply}
use coven_github.Worker.Pipeline.{say, terminal}
use coven_github.Worker.Surface.{decline_body}
use coven_github.Worker.GardenRun.Guarded.{Reply-cases}
use coven_github.Worker.Pipeline.Conclude.{
  conclude_stale, conclude_published, conclude_failed, conclude, failed_terminal, stale_terminal,
}
use coven_github.Worker.Pipeline.Commands.{answer_and_finish, gate_command, run_cancel_reviews}
use coven_github.GitHub.{Task}
use coven_github.Worker.Session.Outcome.{StaleRefs, Published, terminal_of}
use coven_github.Worker.Session.Retries.{value, error, Fallible}
use coven_github.Config.{FamiliarConfig, Config}
use coven_github.Worker.Hub.{Hub, CheckConclusion, got}
use coven_github.Store.Schema.{Db, Terminal, TaskRow, is_terminal, TerminalState}
use coven_github.Store.Queue.{finish, has_id, state_of, finished}
use coven_github.Base.{
  ℕ, List, String, All, select_where, not, refl, true, ◌≡◌, Bool-cases, Option, Option-cases, [],
  inl, inr, update_where, ◌∷◌, none, arith, select_where-update_where, ==_of_ne, nat_Eq, some,
  text_Eq, ◌≢◌, Bool, ap, ◌∙◌, false, ◌==◌, ◌||◌,
}

-- A row of the task is in a state that no claim and no recovery takes up again.
abbrev pub Ended : String → TaskRow → Type 0
Ended id r = has_id id r ≡ true → is_terminal r.state ≡ true

state_of-terminal : (s : TerminalState) → is_terminal (state_of s) ≡ true
unfolding state_of
state_of-terminal TerminalState.completed = refl
state_of-terminal TerminalState.failed = refl
state_of-terminal TerminalState.superseded = refl

update_where-Ended :
    (now : ℕ) (id : String) (e : Terminal) (rows : List TaskRow)
    → All (Ended id) (update_where (has_id id) (finished now e) rows)
unfolding update_where
update_where-Ended now id e [] = tt
update_where-Ended now id e (r ∷ rows) = elim (Bool-cases (has_id id r)) [
  | inl own ↦ rw own ((λ _. state_of-terminal e.state), update_where-Ended now id e rows)
  | inr other ↦ rw other ((λ own. grind arith), update_where-Ended now id e rows)
]

pub finish-Ended :
    (now : ℕ) (db : Db) (id : String) (e : Terminal) → All (Ended id) (finish now db id e).tasks
unfolding finish
finish-Ended now db id e = update_where-Ended now id e db.tasks

-- The rows of the other tasks.
abbrev pub others : String → List TaskRow → List TaskRow
others id rows = select_where (λ (r : TaskRow). not (has_id id r)) rows

pub others-finish :
    (now : ℕ) (db : Db) (id : String) (e : Terminal)
    → others id (finish now db id e).tasks ≡ others id db.tasks
unfolding finish
others-finish now db id e =
    select_where-update_where (λ (r : TaskRow). not (has_id id r)) (has_id id) (finished now e)
      db.tasks (λ r own. rw own refl) (λ r own. rw own refl)

-- The last call of the run completed the Check Run.
pub record IsCompleted {W : Type 0} (hub : Hub W) (check_id : ℕ) (w : W) : Type 0 where
  pub conclusion : CheckConclusion
  pub title : String
  pub summary : String
  pub before : W
  pub last_call : w ≡ (hub.complete_check before check_id conclusion title summary).1

module _ {W : Type 0} (hub : Hub W) (now : ℕ) (cfg : Config) (cave : Option String)
    (familiar : FamiliarConfig) (t : Task) where
  abbrev Settled : ℕ → (Db × W) → Type 0
  Settled check_id after = All (Ended t.id) after.0.tasks × IsCompleted hub check_id after.1

  conclude_stale-Settled :
      (db : Db) (w : W) (check_id : ℕ) (stale : StaleRefs)
      → Settled check_id (conclude_stale hub now cfg cave familiar t db w check_id stale)
  unfolding conclude_stale
  conclude_stale-Settled db w check_id stale = (
    finish-Ended now db t.id (stale_terminal stale),
    record { conclusion = _; title = _; summary = _; before = _; last_call = refl },
  )

  conclude_published-Settled :
      (db : Db) (w : W) (check_id : ℕ) (p : Published)
      → Settled check_id (conclude_published hub now cfg cave familiar t db w check_id p)
  unfolding conclude_published
  conclude_published-Settled db w check_id p = (
    finish-Ended now db t.id (terminal_of p),
    record { conclusion = _; title = _; summary = _; before = _; last_call = refl },
  )

  conclude_failed-Settled :
      (db : Db) (w : W) (check_id : ℕ) (token e : String)
      → Settled check_id (conclude_failed hub now cfg cave familiar t db w check_id token e)
  unfolding conclude_failed
  conclude_failed-Settled db w check_id token e = (
    finish-Ended now db t.id (failed_terminal token e),
    record { conclusion = _; title = _; summary = _; before = _; last_call = refl },
  )

  -- Whatever the session's outcome and whatever GitHub answers, the run's last call completes the
  -- Check Run, and the task's row is in a terminal state.
  pub conclude-Settled :
      (db : Db) (w : W) (check_id : ℕ) (token : String) (outcome : Fallible Published)
      → Settled check_id (conclude hub now cfg cave familiar t db w check_id token outcome)
  unfolding conclude
  conclude-Settled db w check_id token (error e) = conclude_failed-Settled db w check_id token e
  conclude-Settled db w check_id token (value p) = elim (Option-cases p.stale) [
    | inl e ↦ rw e (conclude_published-Settled db w check_id p)
    | inr (stale, e) ↦ rw e (conclude_stale-Settled db w check_id stale)
  ]

module _ {W : Type 0} (hub : Hub W) (now : ℕ) (familiar : FamiliarConfig) (t : Task) where
  answer_and_finish-others :
      (db : Db) (w : W) (n : ℕ) (reply : String)
      → others t.id (answer_and_finish hub now familiar t db w n reply).db.tasks
        ≡ others t.id db.tasks
  unfolding answer_and_finish
  answer_and_finish-others db w n reply = elim (Reply-cases (say hub familiar t w n reply).0) [
    | inl (a, e) ↦
        rw (e, answer_and_finish)
          (others-finish now db t.id (terminal TerminalState.completed none none))
    | inr (m, e) ↦ rw (e, answer_and_finish) refl
  ]

  answer_and_finish-world :
      (db : Db) (w : W) (n : ℕ) (reply : String)
      → (answer_and_finish hub now familiar t db w n reply).world ≡ (say hub familiar t w n reply).1
  unfolding answer_and_finish
  answer_and_finish-world db w n reply = elim (Reply-cases (say hub familiar t w n reply).0) [
    | inl (a, e) ↦ rw (e, answer_and_finish) refl
    | inr (m, e) ↦ rw (e, answer_and_finish) refl
  ]

  -- The gate lets through three permissions only.
  commander_below_write-below :
      (w : W) (commander permission : String)
      → t.commander ≡ some commander
      → (hub.get_collaborator_permission w commander).0 ≡ got permission
      → permission ≢ "admin"
      → permission ≢ "maintain"
      → permission ≢ "write"
      → commander_below_write hub w t ≡ (got true, (hub.get_collaborator_permission w commander).1)
  unfolding commander_below_write
  commander_below_write-below w commander permission c p admin maintain write =
      let refused : (permission == "admin" || permission == "maintain" || permission == "write")
          ≡ false =
        rw
          (
            ==_of_ne permission "admin" admin,
            ==_of_ne permission "maintain" maintain,
            ==_of_ne permission "write" write,
          )
          refl in
      rw (c, p, refused, commander_below_write) refl

  gate_command-below :
      (w : W) (commander permission token : String)
      → let minted = hub.mint w TokenRole.orchestration in
        t.commander ≡ some commander
        → minted.0 ≡ got token
        → (hub.get_collaborator_permission minted.1 commander).0 ≡ got permission
        → permission ≢ "admin"
        → permission ≢ "maintain"
        → permission ≢ "write"
        → gate_command hub now familiar t w
          ≡ (got true, (hub.get_collaborator_permission minted.1 commander).1)
  unfolding gate_command
  gate_command-below w commander permission token c m p admin maintain write =
      rw (m, gate_command)
        (commander_below_write-below _ commander permission c p admin maintain write)

  -- A command to cancel reviews, of a commander whose permission on the repository is none of
  -- `admin`, `maintain` and `write`, cancels nothing: no row of another task changes, and all that
  -- GitHub is asked for, after the token and the permission, is the comment that declines it.
  pub run_cancel_reviews-below :
      (db : Db) (w : W) (pr_number : ℕ) (commander permission token : String)
      → let minted = hub.mint w TokenRole.orchestration in
        let asked = hub.get_collaborator_permission minted.1 commander in
        t.commander ≡ some commander
        → minted.0 ≡ got token
        → asked.0 ≡ got permission
        → permission ≢ "admin"
        → permission ≢ "maintain"
        → permission ≢ "write"
        → let r = run_cancel_reviews hub now familiar t db w pr_number in
          (others t.id r.db.tasks ≡ others t.id db.tasks)
          × (r.world
              ≡ (upsert hub asked.1 pr_number
                  (marker familiar.id t.repo_owner t.repo_name pr_number)
                  (decline_body t)).1)
  unfolding run_cancel_reviews
  run_cancel_reviews-below db w pr_number commander permission token c m p admin maintain write =
      let gated = gate_command-below w commander permission token c m p admin maintain write in
      rw (ap (λ (g : Reply Bool × W). g.0) gated, run_cancel_reviews)
        (
          answer_and_finish-others db _ pr_number (decline_body t),
          answer_and_finish-world db _ pr_number (decline_body t)
              ∙ ap (λ (g : Reply Bool × W). (say hub familiar t g.1 pr_number (decline_body t)).1)
                  gated,
        )
