-- ===== src/Store/Queue.antt =====
-- The tasks table as the work queue: `claim_next`, `finish`, `set_check_run_url`,
-- `recover_interrupted`, `cancel_queued`, `supersede_queued_except` and `supersede_queued` of
-- crates/store/src/lib.rs.
pub mod Order
pub mod Caps
pub mod Recovery
pub mod RoundTrip
use coven_github.Base.{
  ℕ, Bool, List, Option, String, [], any, count_where, false, first_by, if◌then◌else◌, is_empty,
  leb, ltb, nat_Eq, none, not, select_where, some, split_once, text_Eq, text_ltb, true,
  update_where, ◌&&◌, ◌+◌, ◌==◌, ◌||◌, ◌∷◌,
}
use coven_github.GitHub.{Task, TaskKind}
use coven_github.Store.Schema.{
  Db, AttemptRow, KindJson, Result, TaskRow, TaskState, Terminal, TerminalState, constraint, err,
  is_none, is_queued, is_running, ok, unreadable_kind,
}
use coven_github.Store.Deliveries.{queued_for, tombstoned}

-- The concurrency caps, `HashMap<u64, u32>`, as an association list.
abbrev pub Caps : Type 0
Caps = List (ℕ × ℕ)

unfoldable pub cap_of : ℕ → Caps → Option ℕ
cap_of i [] = none
cap_of i ((j, cap) ∷ caps) = if j == i then some cap else cap_of i caps

unfoldable pub bump : ℕ → List (ℕ × ℕ) → List (ℕ × ℕ)
bump i [] = (i, 1) ∷ []
bump i ((j, n) ∷ groups) = if j == i then (j, n + 1) ∷ groups else (j, n) ∷ bump i groups

-- SELECT installation_id, COUNT(*) … WHERE state = 'running' GROUP BY installation_id
unfoldable pub running_counts : List TaskRow → List (ℕ × ℕ)
running_counts [] = []
running_counts (r ∷ rows) =
    let rest = running_counts rows in
    if is_running r.state then bump r.installation_id rest else rest

abbrev pub reached : Option ℕ → ℕ → Bool
reached none count = false
reached (some cap) count = leb cap count

-- The installations that are pushed to `capped`.
unfoldable pub capped_among : Caps → List (ℕ × ℕ) → List ℕ
capped_among caps [] = []
capped_among caps ((i, count) ∷ groups) =
    let rest = capped_among caps groups in if reached (cap_of i caps) count then i ∷ rest else rest

unfoldable pub capped : Caps → List TaskRow → List ℕ
unfolding capped_among running_counts
capped caps rows = if is_empty caps then [] else capped_among caps (running_counts rows)

-- state = 'queued' AND installation_id NOT IN (…)
unfoldable pub claimable : List ℕ → TaskRow → Bool
claimable full r = is_queued r.state && not (any (λ (i : ℕ). i == r.installation_id) full)

-- ORDER BY created_at, id
unfoldable pub older : TaskRow → TaskRow → Bool
older a b = ltb a.created_at b.created_at || (a.created_at == b.created_at && text_ltb a.id b.id)

unfoldable pub next_row : Caps → List TaskRow → Option TaskRow
unfolding claimable older
next_row caps rows = first_by older (select_where (claimable (capped caps rows)) rows)

-- The row of a claimed task, and its attempt record.
abbrev pub started : ℕ → TaskRow → TaskRow
started now r = record r { state = TaskState.running; attempts = r.attempts + 1; updated_at = now }

abbrev pub attempt_row : ℕ → String → ℕ → AttemptRow
attempt_row now id n = record {
  task_id = id;
  attempt = n;
  started_at = now;
  ended_at = none;
  outcome = none;
  detail = none;
}

abbrev pub is_attempt : String → ℕ → AttemptRow → Bool
is_attempt id n a = a.task_id == id && a.attempt == n

abbrev pub has_id : String → TaskRow → Bool
has_id id r = r.id == id

-- `split_once('/')`, with the whole text as the owner where there is no slash
unfoldable pub split_repo : String → String × String
split_repo repo = elim (split_once b'/' repo) [ none ↦ (repo, "") | some (o, n) ↦ (o, n) ]

unfoldable pub task_of : TaskRow → TaskKind → Task
unfolding split_repo
task_of r kind =
    let (owner, name) = split_repo r.repo in
    record {
      id = r.id;
      installation_id = r.installation_id;
      repo_owner = owner;
      repo_name = name;
      kind = kind;
      familiar_id = r.familiar_id;
      commander = r.commander;
    }

-- The tables after the commit of a claim.
unfoldable pub claimed : ℕ → Db → TaskRow → Db
claimed now db r = record db {
  tasks = update_where (has_id r.id) (started now) db.tasks;
  attempts = attempt_row now r.id (r.attempts + 1) ∷ db.attempts;
}

module _ (json : KindJson) where
  -- A claim whose stored kind does not parse fails after its transaction has committed.
  unfoldable pub claim_row : ℕ → Db → TaskRow → Result (Option Task) × Db
  unfolding claimed
  claim_row now db r =
      if any (is_attempt r.id (r.attempts + 1)) db.attempts
      then (err constraint, db)
      else elim (json.from_str r.kind) [
        | none ↦ (err unreadable_kind, claimed now db r)
        | some kind ↦ (ok (some (task_of r kind)), claimed now db r)
      ]

  unfoldable pub claim_next : ℕ → Caps → Db → Result (Option Task) × Db
  claim_next now caps db = elim (next_row caps db.tasks) [
    | none ↦ (ok none, db)
    | some r ↦ claim_row now db r
  ]

unfoldable pub set_check_run_url : ℕ → Db → String → String → Db
set_check_run_url now db id url = record db {
  tasks =
      update_where (has_id id) (λ r. record r { check_run_url = some url; updated_at = now })
        db.tasks;
}

unfoldable pub as_str : TerminalState → String
as_str TerminalState.completed = "completed"
as_str TerminalState.failed = "failed"
as_str TerminalState.superseded = "superseded"

-- The value of the state column that `as_str` writes.
unfoldable pub state_of : TerminalState → TaskState
state_of TerminalState.completed = TaskState.completed
state_of TerminalState.failed = TaskState.failed
state_of TerminalState.superseded = TaskState.superseded

abbrev pub finished : ℕ → Terminal → TaskRow → TaskRow
finished now t r = record r {
  state = state_of t.state;
  result_status = t.result_status;
  branch = t.branch;
  pr_number = t.pr_number;
  summary = t.summary;
  updated_at = now;
}

abbrev pub open_attempt_of : String → AttemptRow → Bool
open_attempt_of id a = a.task_id == id && is_none a.ended_at

abbrev pub closed : ℕ → Terminal → AttemptRow → AttemptRow
closed now t a = record a {
  ended_at = some now;
  outcome = some (as_str t.state);
  detail = t.detail;
}

unfoldable pub finish : ℕ → Db → String → Terminal → Db
unfolding state_of as_str
finish now db id t = record db {
  tasks = update_where (has_id id) (finished now t) db.tasks;
  attempts = update_where (open_attempt_of id) (closed now t) db.attempts;
}

abbrev pub interrupted : ℕ → AttemptRow → AttemptRow
interrupted now a = record a { ended_at = some now; outcome = some "interrupted" }

-- state = 'running' AND attempts >= max_attempts
abbrev pub exhausted : ℕ → TaskRow → Bool
exhausted max r = is_running r.state && leb max r.attempts

abbrev pub coalesce : Option String → String → String
coalesce none d = d
coalesce (some s) d = s

abbrev pub given_up : ℕ → TaskRow → TaskRow
given_up now r = record r {
  state = TaskState.failed;
  updated_at = now;
  summary = some (coalesce r.summary "interrupted repeatedly; giving up");
}

abbrev pub requeued : ℕ → TaskRow → TaskRow
requeued now r = record r { state = TaskState.queued; updated_at = now }

abbrev pub running_row : TaskRow → Bool
running_row r = is_running r.state

-- Returns `(requeued, failed)`.
unfoldable pub recover_interrupted : ℕ → Db → ℕ → (ℕ × ℕ) × Db
recover_interrupted now db max =
    let attempts =
      update_where (λ (a : AttemptRow). is_none a.ended_at) (interrupted now) db.attempts in
    let failed = count_where (exhausted max) db.tasks in
    let rest = update_where (exhausted max) (given_up now) db.tasks in
    (
      (count_where running_row rest, failed),
      record db { tasks = update_where running_row (requeued now) rest; attempts = attempts },
    )

-- ?3 IS NULL OR id <> ?3
abbrev pub not_excepted : Option String → TaskRow → Bool
not_excepted none r = true
not_excepted (some id) r = not (r.id == id)

abbrev pub superseding : String → Option String → TaskRow → Bool
superseding key except r = queued_for key r && not_excepted except r

unfoldable pub supersede_queued : ℕ → Db → String → Option String → ℕ × Db
supersede_queued now db key except = (
  count_where (superseding key except) db.tasks,
  record db { tasks = update_where (superseding key except) (tombstoned now) db.tasks },
)

unfoldable pub cancel_queued : ℕ → Db → String → ℕ × Db
unfolding supersede_queued
cancel_queued now db key = supersede_queued now db key none

unfoldable pub supersede_queued_except : ℕ → Db → String → String → ℕ × Db
unfolding supersede_queued
supersede_queued_except now db key current = supersede_queued now db key (some current)
