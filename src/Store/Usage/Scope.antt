-- ===== src/Store/Usage/Scope.antt =====
-- A tenant's usage shows its own installation only (crates/store/src/lib.rs).
use coven_github.Store.Usage.{
  usage, key_before, key_test, key_of, with_attempts, left_join, keys_among, insert_key, UsageRow,
  UsageKey, JoinedRow, usage_row,
}
use coven_github.Store.Schema.{TaskRow, Db, AttemptRow}
use coven_github.Store.Memory.{ApiScope, in_installation, in_repos, repo_visible}
use coven_github.Store.Audit.Scope.{All-map_to, All-append}
use coven_github.Base.{
  ℕ, All, All-select_where, All_all, Bool-cases, List, [], eq_of_==, inl, inr, nat_Eq, select_where,
  some, text_Eq, true, ◌∷◌, ◌≡◌,
}

module _ (i : ℕ) where
  abbrev Ours : JoinedRow → Type 0
  Ours r = r.0.installation_id ≡ i

  abbrev OursKey : UsageKey → Type 0
  OursKey k = k.installation_id ≡ i

  Ours-with_attempts :
      (t : TaskRow) (attempts : List AttemptRow)
      → t.installation_id ≡ i
      → All Ours (with_attempts t attempts)
  Ours-with_attempts t [] h = (h, tt)
  Ours-with_attempts t (a ∷ attempts) h =
      All-map_to Ours (λ (b : AttemptRow). (t, some b)) (a ∷ attempts)
        (All_all (a ∷ attempts) (λ _. h))

  Ours-left_join :
      (tasks : List TaskRow) (attempts : List AttemptRow)
      → All (λ (t : TaskRow). t.installation_id ≡ i) tasks
      → All Ours (left_join tasks attempts)
  unfolding left_join
  Ours-left_join [] attempts h = tt
  Ours-left_join (t ∷ tasks) attempts h =
      All-append Ours _ _ (Ours-with_attempts t _ h.0) (Ours-left_join tasks attempts h.1)

  Ours-insert_key :
      (k : UsageKey) (keys : List UsageKey)
      → OursKey k
      → All OursKey keys
      → All OursKey (insert_key k keys)
  unfolding insert_key
  Ours-insert_key k [] h hs = (h, tt)
  Ours-insert_key k (j ∷ keys) h hs = elim (Bool-cases (key_test k j)) [
    | inl e ↦ rw e hs
    | inr e ↦ elim (Bool-cases (key_before k j)) [
      | inl b ↦ rw (e, b) (h, hs)
      | inr b ↦ rw (e, b) (hs.0, Ours-insert_key k keys h hs.1)
    ]
  ]

  Ours-keys_among : (rows : List JoinedRow) → All Ours rows → All OursKey (keys_among rows)
  unfolding keys_among
  Ours-keys_among [] h = tt
  Ours-keys_among ((t, a) ∷ rows) h =
      Ours-insert_key (key_of t) (keys_among rows) h.0 (Ours-keys_among rows h.1)

-- Usage that is rolled up for a tenant is of its installation and, if the scope names repositories,
-- of one of these.
pub usage-scoped :
    (seconds : ℕ → ℕ) (db : Db) (s : ApiScope)
    → All
        (λ (u : UsageRow).
          (u.installation_id ≡ s.installation_id) × (in_repos s.repos u.repo ≡ true))
        (usage seconds db (some s))
unfolding usage usage_row
usage-scoped seconds db s =
    let mine = λ (t : TaskRow). in_installation (some s) t.installation_id in
    let rows = left_join (select_where mine db.tasks) db.attempts in
    All-select_where {P = λ (u : UsageRow). u.installation_id ≡ s.installation_id}
      (λ (u : UsageRow). repo_visible (some s) u.repo) _ (λ u h q. (h, q))
      (All-map_to (λ (u : UsageRow). u.installation_id ≡ s.installation_id)
        (λ (k : UsageKey).
          usage_row seconds k (select_where (λ (r : JoinedRow). key_test (key_of r.0) k) rows))
        (keys_among rows)
        (Ours-keys_among s.installation_id rows (
          Ours-left_join s.installation_id (select_where mine db.tasks) db.attempts (
            All-select_where {P = λ _. Unit {0}} mine db.tasks (λ t _ e. eq_of_== _ _ e)
              (All_all db.tasks (λ _. tt))))))
