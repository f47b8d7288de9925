-- ===== src/Store/Usage.antt =====
-- Usage and the text scan: `usage` and `all_stored_text` of crates/store/src/lib.rs.
pub mod Scope
use coven_github.Store.Schema.{
  TaskState, TaskRow, RevocationRow, MemoryActivity, DeliveryRow, Db, AttemptRow,
}
use coven_github.Store.Memory.{repo_visible, in_installation, ApiScope}
use coven_github.Base.{
  ℕ, Bool, List, Option, String, [], any, count_where, false, if◌then◌else◌, ltb, map, nat_Eq, none,
  select_where, some, suc, text_Eq, text_ltb, true, ◌&&◌, ◌++◌, ◌+◌, ◌-◌, ◌==◌, ◌||◌, ◌∷◌,
}

pub record UsageRow : Type 0 where
  pub installation_id : ℕ
  pub repo : String
  pub familiar_id : String
  pub tasks : ℕ
  pub completed : ℕ
  pub failed : ℕ
  pub runtime_secs : ℕ

-- The columns of GROUP BY.
pub record UsageKey : Type 0 where
  pub installation_id : ℕ
  pub repo : String
  pub familiar_id : String

abbrev pub key_of : TaskRow → UsageKey
key_of t = record {
  installation_id = t.installation_id;
  repo = t.repo;
  familiar_id = t.familiar_id;
}

abbrev pub key_test : UsageKey → UsageKey → Bool
key_test a b =
    a.installation_id == b.installation_id && a.repo == b.repo && a.familiar_id == b.familiar_id

abbrev pub key_before : UsageKey → UsageKey → Bool
key_before a b =
    ltb a.installation_id b.installation_id
    || (a.installation_id == b.installation_id
        && (text_ltb a.repo b.repo || (a.repo == b.repo && text_ltb a.familiar_id b.familiar_id)))

abbrev pub JoinedRow : Type 0
JoinedRow = TaskRow × Option AttemptRow

abbrev pub with_attempts : TaskRow → List AttemptRow → List JoinedRow
with_attempts t [] = (t, none) ∷ []
with_attempts t (a ∷ attempts) = map (λ (b : AttemptRow). (t, some b)) (a ∷ attempts)

-- tasks t LEFT JOIN task_attempts a ON a.task_id = t.id
unfoldable pub left_join : List TaskRow → List AttemptRow → List JoinedRow
left_join [] attempts = []
left_join (t ∷ tasks) attempts =
    with_attempts t (select_where (λ (a : AttemptRow). a.task_id == t.id) attempts)
    ++ left_join tasks attempts

-- The keys in order, each once.
unfoldable pub insert_key : UsageKey → List UsageKey → List UsageKey
insert_key k [] = k ∷ []
insert_key k (j ∷ keys) =
    let rest = insert_key k keys in
    if key_test k j then j ∷ keys else if key_before k j then k ∷ j ∷ keys else j ∷ rest

unfoldable pub keys_among : List JoinedRow → List UsageKey
unfolding insert_key
keys_among [] = []
keys_among ((t, a) ∷ rows) = insert_key (key_of t) (keys_among rows)

-- COUNT(DISTINCT t.id)
unfoldable pub count_distinct : List JoinedRow → ℕ
count_distinct [] = 0
count_distinct ((t, a) ∷ rows) =
    let rest = count_distinct rows in
    if any (λ (r : JoinedRow). r.0.id == t.id) rows then rest else suc rest

abbrev pub in_state : TaskState → TaskState → Bool
in_state TaskState.completed TaskState.completed = true
in_state TaskState.failed TaskState.failed = true
in_state _ _ = false

-- `seconds` is SQLite's strftime('%s', …).
module _ (seconds : ℕ → ℕ) where
  abbrev pub runtime_of : Option AttemptRow → ℕ
  runtime_of none = 0
  runtime_of (some a) = elim a.ended_at [
    | none ↦ 0
    | some ended ↦ seconds ended - seconds a.started_at
  ]

  unfoldable pub total_runtime : List JoinedRow → ℕ
  total_runtime [] = 0
  total_runtime ((t, a) ∷ rows) = runtime_of a + total_runtime rows

  unfoldable pub usage_row : UsageKey → List JoinedRow → UsageRow
  unfolding count_distinct total_runtime
  usage_row k rows = record {
    installation_id = k.installation_id;
    repo = k.repo;
    familiar_id = k.familiar_id;
    tasks = count_distinct rows;
    completed = count_where (λ (r : JoinedRow). in_state TaskState.completed r.0.state) rows;
    failed = count_where (λ (r : JoinedRow). in_state TaskState.failed r.0.state) rows;
    runtime_secs = total_runtime rows;
  }

  unfoldable pub usage : Db → Option ApiScope → List UsageRow
  unfolding left_join keys_among usage_row
  usage db scope =
      let rows =
        left_join (select_where (λ (t : TaskRow). in_installation scope t.installation_id) db.tasks)
          db.attempts in
      select_where (λ (u : UsageRow). repo_visible scope u.repo)
        (map
          (λ (k : UsageKey).
            usage_row k (select_where (λ (r : JoinedRow). key_test (key_of r.0) k) rows))
          (keys_among rows))

abbrev pub texts_among {ℓ} : {A : Type ℓ} → (A → Option String) → List A → List String
texts_among f [] = []
texts_among f (x ∷ xs) = elim (f x) [ none ↦ texts_among f xs | some s ↦ s ∷ texts_among f xs ]

-- What the adapter wrote, of each table; SQL leaves the order within a table open.
unfoldable pub all_stored_text : Db → List String
all_stored_text db =
    texts_among (λ (t : TaskRow). t.summary) db.tasks
    ++ texts_among (λ (a : AttemptRow). a.detail) db.attempts
    ++ map (λ (d : DeliveryRow). d.routing) db.deliveries
    ++ map (λ (m : MemoryActivity). m.target) db.memory
    ++ map (λ (r : RevocationRow). r.target) db.revocations
