-- ===== src/Store/Queue/RoundTrip.antt =====
-- A task that is recorded and claimed comes out as it went in (crates/store/src/lib.rs).
use coven_github.Store.Deliveries.Supersession.{new_rows}
use mathlib.Core.Path.{subst}
use coven_github.Store.Validity.Recording.{record_delivery-IsValid}
use coven_github.Store.Validity.Claiming.{claimed_result, claim_next-some}
use coven_github.Store.Validity.{IsValid}
use coven_github.Store.Deliveries.{task_row, record_delivery, tombstone_older}
use coven_github.Store.Queue.{task_of, split_repo, Caps, capped, claim_next, claimable, next_row}
use coven_github.GitHub.{Task}
use coven_github.Store.Schema.{KindJson, Delivery, Db, Routing, TaskRow, new, ok}
use text.Mathlib.TextLemmas.{nil-append, cons-append}
use coven_github.Base.{
  String, lacks, some, split_once, true, ◌<>◌, ◌≡◌, Bool-cases, code, inl, inr, nat_eq, ℕ, All,
  Bool, List, [], ap, earlier, false, first_by, refl, select_where, sym, ◌∷◌,
}

-- A repository text splits at the slash that joined it, if the owner has none.
pub split_once-join :
    (owner name : String)
    → lacks b'/' owner ≡ true
    → split_once b'/' (owner <> "/" <> name) ≡ some (owner, name)
unfolding split_once lacks
split_once-join String.[] name h = rw nil-append (rw cons-append (rw nil-append))
split_once-join (String.◌∷◌ c s) name h = elim (Bool-cases (nat_eq (code c) b'/')) [
  | inl e ↦ cc (rw e at h)
  | inr e ↦ rw cons-append (rw (e, split_once-join s name (rw e at h)))
]

-- A row of a task is read back as that task.
pub task_of-task_row :
    (json : KindJson) (now : ℕ) (d : Delivery) (t : Task)
    → lacks b'/' t.repo_owner ≡ true
    → task_of (task_row json now d t) t.kind ≡ t
unfolding task_of task_row
task_of-task_row json now d t h =
    rw (split_once-join t.repo_owner t.repo_name h, split_repo, task_of)

select_where-none {ℓ} :
    {A : Type ℓ} (p : A → Bool) (xs : List A) → All (λ x. p x ≡ false) xs → select_where p xs ≡ []
unfolding select_where
select_where-none p [] h = refl
select_where-none p (x ∷ xs) h = rw h.0 (select_where-none p xs h.1)

-- The only row that could be claimed is the next row.
next_row-alone :
    (caps : Caps) (r : TaskRow) (rest : List TaskRow)
    → claimable (capped caps (r ∷ rest)) r ≡ true
    → All (λ (u : TaskRow). claimable (capped caps (r ∷ rest)) u ≡ false) rest
    → next_row caps (r ∷ rest) ≡ some r
unfolding next_row select_where first_by earlier
next_row-alone caps r rest could others =
    rw (could, select_where-none (claimable (capped caps (r ∷ rest))) rest others)

read_back :
    (json : KindJson) (now : ℕ) (d : Delivery) (t : Task)
    → json.from_str (json.to_string t.kind) ≡ some t.kind
    → lacks b'/' t.repo_owner ≡ true
    → claimed_result (json.from_str (task_row json now d t).kind) (task_row json now d t)
      ≡ ok (some t)
read_back json now d t codec plain =
    let parsed : json.from_str (task_row json now d t).kind ≡ some t.kind =
      unfold task_row in codec in
    rw parsed (ap (λ (u : Task). ok (some u)) (task_of-task_row json now d t plain))

-- On well-formed tables, a task that is recorded as new, with a delivery of its installation,
-- comes out of the next claim as it went in, if its owner has no slash, its kind parses back from
-- its JSON, its row can be claimed, and no other row can be.
pub record-claim :
    (json : KindJson) (now later : ℕ) (caps : Caps) (db : Db) (d : Delivery) (t : Task)
    → IsValid db
    → d.installation_id ≡ some t.installation_id
    → (record_delivery json now db d (Routing.task t)).0 ≡ ok new
    → lacks b'/' t.repo_owner ≡ true
    → json.from_str (json.to_string t.kind) ≡ some t.kind
    → let rest = tombstone_older now t db.tasks in
      let full = capped caps (task_row json now d t ∷ rest) in
      claimable full (task_row json now d t) ≡ true
      → All (λ (u : TaskRow). claimable full u ≡ false) rest
      → (claim_next json later caps (record_delivery json now db d (Routing.task t)).1).0
        ≡ ok (some t)
record-claim json now later caps db d t v owner e plain codec could others =
    let db' = (record_delivery json now db d (Routing.task t)).1 in
    let v' = record_delivery-IsValid json now db d (Routing.task t) v owner in
    let picked =
      subst (λ rows. next_row caps rows ≡ some (task_row json now d t))
        (sym (new_rows json now db d t e))
        (next_row-alone caps (task_row json now d t) (tombstone_older now t db.tasks) could
          others) in
    rw (claim_next-some json later caps db' (task_row json now d t) v' picked)
      (read_back json now d t codec plain)
