-- ===== src/Store/Memory/Governance.antt =====
-- What the memory tables promise: revocations last, and callers see their scope only
-- (crates/store/src/lib.rs).
use coven_github.Store.Memory.{
  revocation_of, record_revocation, memory_of, in_repos, targets_in, revocations_for,
  memory_visible, list_memory, delete_memory_for_installation, ApiScope,
}
use coven_github.Base.{
  ℕ, All, All-select_where, All_all, List, String, [], and-eq-true, arith, delete_where, eq_of_==,
  if◌then◌else◌, nat_Eq, refl, select_where, some, text_Eq, true, ◌&&◌, ◌++◌, ◌==◌, ◌∷◌, ◌≡◌,
}
use coven_github.Store.Schema.{Db, MemoryActivity, RevocationRow}

-- The memory that a tenant lists is of its installation and, if the scope names repositories, of one
-- of these.
pub list_memory-scoped :
    (db : Db) (s : ApiScope)
    → All
        (λ (r : MemoryActivity).
          (r.installation_id ≡ s.installation_id) × (in_repos s.repos r.repo ≡ true))
        (list_memory db (some s))
unfolding list_memory
list_memory-scoped db s =
    All-select_where {P = λ _. Unit {0}} (memory_visible (some s)) db.memory
      (λ r _ e. (eq_of_== _ _ (and-eq-true _ _ e).0, (and-eq-true _ _ e).1))
      (All_all db.memory (λ _. tt))

-- A revocation is appended to the denial list of its installation and repository, and to no other.
pub revocations_for-record :
    (now : ℕ) (db : Db) (i j : ℕ) (repo other target : String)
    → revocations_for (record_revocation now db i repo target) j other ≡ (
        if i == j && repo == other
        then revocations_for db j other ++ target ∷ []
        else revocations_for db j other)
unfolding revocations_for record_revocation
revocations_for-record now db i j repo other target = refl

targets_in-delete :
    (i j : ℕ) (repo : String) (rows : List RevocationRow)
    → targets_in j repo (delete_where (revocation_of i) rows)
      ≡ (if i == j then [] else targets_in j repo rows)
unfolding targets_in delete_where
targets_in-delete i j repo [] = ground arith
targets_in-delete i j repo (r ∷ rows) = ground (arith, targets_in-delete i j repo rows)

list-delete :
    (i : ℕ) (s : ApiScope) (rows : List MemoryActivity)
    → select_where (memory_visible (some s)) (delete_where (memory_of i) rows)
      ≡ (if i == s.installation_id then [] else select_where (memory_visible (some s)) rows)
unfolding select_where delete_where
list-delete i s [] = ground arith
list-delete i s (r ∷ rows) = ground (arith, list-delete i s rows)

-- An uninstall empties the installation's memory and denial lists, and those of no other.
pub delete_memory_lem :
    (db : Db) (i : ℕ) (s : ApiScope) (repo : String)
    → let after = (delete_memory_for_installation db i).1 in
      (list_memory after (some s)
        ≡ (if i == s.installation_id then [] else list_memory db (some s)))
      × (revocations_for after s.installation_id repo
          ≡ (if i == s.installation_id then [] else revocations_for db s.installation_id repo))
unfolding delete_memory_for_installation list_memory revocations_for
delete_memory_lem db i s repo =
    (list-delete i s db.memory, targets_in-delete i s.installation_id repo db.revocations)
