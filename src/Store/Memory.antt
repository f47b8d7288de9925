-- ===== src/Store/Memory.antt =====
-- Memory activity and revocations: `record_memory_activity`, `list_memory`, `record_revocation`,
-- `revocations_for`, `delete_memory_for_installation` and `expire_memory_activity_before` of
-- crates/store/src/lib.rs, and `ApiScope`.
pub mod Governance
use coven_github.Base.{
  ℕ, Bool, List, Option, String, [], count_where, delete_where, if◌then◌else◌, ltb, nat_Eq, none,
  select_where, some, text_Eq, true, ◌&&◌, ◌++◌, ◌+◌, ◌==◌, ◌∷◌, contains,
}
use coven_github.Store.Schema.{Db, MemoryActivity, RevocationRow}

-- What a caller of the task API may see: one installation, and some or all of its repositories.
pub record ApiScope : Type 0 where
  pub installation_id : ℕ
  pub repos : Option (List String)

-- ?1 IS NULL OR installation_id = ?1
abbrev pub in_installation : Option ApiScope → ℕ → Bool
in_installation none i = true
in_installation (some s) i = i == s.installation_id

abbrev pub in_repos : Option (List String) → String → Bool
in_repos none repo = true
in_repos (some repos) repo = contains repo repos

-- The narrowing to the scope's repositories.
abbrev pub repo_visible : Option ApiScope → String → Bool
repo_visible none repo = true
repo_visible (some s) repo = in_repos s.repos repo

abbrev pub at_or : ℕ → Option ℕ → ℕ
at_or now none = now
at_or now (some at) = at

-- The rows come with their explicit time, or with none where the text of the time is empty.
unfoldable pub record_memory_activity : ℕ → Db → List (Option ℕ × MemoryActivity) → Db
record_memory_activity now db [] = db
record_memory_activity now db ((at, row) ∷ rows) =
    record_memory_activity now (record db { memory = record row { at = at_or now at } ∷ db.memory })
      rows

abbrev pub memory_visible : Option ApiScope → MemoryActivity → Bool
memory_visible scope r = in_installation scope r.installation_id && repo_visible scope r.repo

-- ORDER BY id DESC: the table is newest first.
unfoldable pub list_memory : Db → Option ApiScope → List MemoryActivity
list_memory db scope = select_where (memory_visible scope) db.memory

unfoldable pub record_revocation : ℕ → Db → ℕ → String → String → Db
record_revocation now db i repo target = record db {
  revocations =
      record { at = now; installation_id = i; repo = repo; target = target } ∷ db.revocations;
}

abbrev pub revokes_in : ℕ → String → RevocationRow → Bool
revokes_in i repo r = r.installation_id == i && r.repo == repo

-- The targets, oldest first.
unfoldable pub targets_in : ℕ → String → List RevocationRow → List String
targets_in i repo [] = []
targets_in i repo (r ∷ rows) =
    let rest = targets_in i repo rows in if revokes_in i repo r then rest ++ r.target ∷ [] else rest

unfoldable pub revocations_for : Db → ℕ → String → List String
unfolding targets_in
revocations_for db i repo = targets_in i repo db.revocations

abbrev pub memory_of : ℕ → MemoryActivity → Bool
memory_of i r = r.installation_id == i

abbrev pub revocation_of : ℕ → RevocationRow → Bool
revocation_of i r = r.installation_id == i

unfoldable pub delete_memory_for_installation : Db → ℕ → ℕ × Db
delete_memory_for_installation db i = (
  count_where (memory_of i) db.memory + count_where (revocation_of i) db.revocations,
  record db {
    memory = delete_where (memory_of i) db.memory;
    revocations = delete_where (revocation_of i) db.revocations;
  },
)

unfoldable pub expire_memory_activity_before : Db → ℕ → ℕ × Db
expire_memory_activity_before db cutoff = (
  count_where (λ (r : MemoryActivity). ltb r.at cutoff) db.memory,
  record db { memory = delete_where (λ (r : MemoryActivity). ltb r.at cutoff) db.memory },
)
