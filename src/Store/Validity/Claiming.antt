-- ===== src/Store/Validity/Claiming.antt =====
-- `claim_next` keeps the tables well formed, and never violates the key of the attempts
-- (crates/store/src/lib.rs).
use native.Mathlib.Nat.{le_of_eq}
use coven_github.GitHub.{TaskKind, Task}
use coven_github.Base.{
  ℕ, All, All-first_by, All-map, All-select_where, All-update_where, Distinct-update_where, List,
  any, any-update_where, any-false_of_All, false, refl, select_where, some, true, ◌+◌, ◌∙◌, ◌≡◌,
  All-zip, All_known, Bool-cases, Distinct-unique, Option-cases, ap, arith, eq_of_==, inl, inr,
  nat_Eq, ne_of_==, sym, text_Eq, ◌==◌, Option, none,
}
use coven_github.Store.Schema.{Db, TaskRow, KindJson, Result, err, ok, unreadable_kind}
use coven_github.Store.Deliveries.{has_task}
use coven_github.Store.Queue.{
  has_id, Caps, capped, claimable, claimed, is_attempt, next_row, older, started, claim_next,
  claim_row, task_of,
}
use coven_github.Store.Validity.{IsValid, Fits}

-- The row that is claimed is a queued row of the table, and has what every row has.
pub next_row-All :
    (P : TaskRow → Type 0) (caps : Caps) (rows : List TaskRow) {r : TaskRow}
    → All P rows
    → next_row caps rows ≡ some r
    → P r × (claimable (capped caps rows) r ≡ true)
unfolding next_row
next_row-All P caps rows h e =
    All-first_by (λ r. P r × (claimable (capped caps rows) r ≡ true)) older
      (select_where (claimable (capped caps rows)) rows)
      (All-select_where (claimable (capped caps rows)) rows (λ r p q. (p, q)) h) e

module _ (now : ℕ) (db : Db) (v : IsValid db) (r : TaskRow) (fits : All (Fits r) db.attempts)
    (only : All (λ (t : TaskRow). t.id ≡ r.id → t ≡ r) db.tasks)
    (present : has_task r.id db.tasks ≡ true) where
  -- No attempt of the task has the next number.
  pub next_attempt_free : any (is_attempt r.id (r.attempts + 1)) db.attempts ≡ false
  next_attempt_free = any-false_of_All (is_attempt r.id (r.attempts + 1)) db.attempts (
      All-map db.attempts
        (λ a fit. elim (Bool-cases (a.task_id == r.id)) [
          | inl e ↦ ground (arith, e, (fit (eq_of_== _ _ e)).0)
          | inr e ↦ rw e
        ])
        fits)

  claimed-Fits :
      (t : TaskRow)
      → (t.id ≡ r.id → t ≡ r) × All (Fits t) db.attempts
      → has_id r.id t ≡ true
      → All (Fits (started now t)) (claimed now db r).attempts
  unfolding claimed
  claimed-Fits t (one, old) e = (
    λ _. (le_of_eq (ap (λ (u : TaskRow). u.attempts + 1) (sym (one (eq_of_== _ _ e)))), λ _. refl),
    All-map db.attempts (λ a fit same. (omega (arith, (fit same).0), λ _. refl)) old,
  )

  others_fit :
      (t : TaskRow)
      → (t.id ≡ r.id → t ≡ r) × All (Fits t) db.attempts
      → has_id r.id t ≡ false
      → All (Fits t) (claimed now db r).attempts
  unfolding claimed
  others_fit t (one, old) e = (λ same. absurd (ne_of_== _ _ e (sym same)), old)

  pub claimed-IsValid : IsValid (claimed now db r)
  unfolding claimed
  claimed-IsValid = record {
    distinct_deliveries = v.distinct_deliveries;
    distinct_tasks =
        Distinct-update_where (λ t. t.id) (has_id r.id) (started now) db.tasks (λ t. refl)
          v.distinct_tasks;
    attempts_fit =
        All-update_where (has_id r.id) (started now) db.tasks claimed-Fits others_fit
          (All-zip db.tasks (λ t one old. (one, old)) only v.attempts_fit);
    owners =
        All-update_where (has_id r.id) (started now) db.tasks (λ t h _. h) (λ t h _. h) v.owners;
    task_of_attempt = (
      any-update_where (has_id r.id) (has_id r.id) (started now) db.tasks (λ t. refl) ∙ present,
      All-map db.attempts
          (λ a h.
            any-update_where (has_id a.task_id) (has_id r.id) (started now) db.tasks (λ t. refl)
            ∙ h)
          v.task_of_attempt,
    );
    delivery_of_task =
        All-update_where (has_id r.id) (started now) db.tasks (λ t h _. h) (λ t h _. h)
          v.delivery_of_task;
  }

-- What is known of the row that is claimed from well-formed tables.
pub record IsNext (db : Db) (full : List ℕ) (r : TaskRow) : Type 0 where
  pub fits : All (Fits r) db.attempts
  pub only : All (λ (t : TaskRow). t.id ≡ r.id → t ≡ r) db.tasks
  pub present : has_task r.id db.tasks ≡ true
  pub waits : claimable full r ≡ true

abbrev Alone : Db → TaskRow → Type 0
Alone db t = All (Fits t) db.attempts × All (λ (u : TaskRow). u.id ≡ t.id → u ≡ t) db.tasks

alone : (db : Db) → IsValid db → All (Alone db) db.tasks
alone db v =
    All-zip db.tasks (λ t h k. (h, k)) v.attempts_fit
      (Distinct-unique (λ (t : TaskRow). t.id) db.tasks v.distinct_tasks)

pub next_row-IsNext :
    (caps : Caps) (db : Db) (r : TaskRow)
    → IsValid db
    → next_row caps db.tasks ≡ some r
    → IsNext db (capped caps db.tasks) r
next_row-IsNext caps db r v e =
    let (mine, waits) = next_row-All (Alone db) caps db.tasks (alone db v) e in
    let (here, _) =
      next_row-All (λ t. has_task t.id db.tasks ≡ true) caps db.tasks
        (All_known (λ (t : TaskRow). t.id) db.tasks) e in
    record { fits = mine.0; only = mine.1; present = here; waits = waits }

abbrev pub claimed_result : Option TaskKind → TaskRow → Result (Option Task)
claimed_result none r = err unreadable_kind
claimed_result (some kind) r = ok (some (task_of r kind))

module _ (json : KindJson) (now : ℕ) (caps : Caps) (db : Db) where
  pub claim_next-none : next_row caps db.tasks ≡ none → claim_next json now caps db ≡ (ok none, db)
  unfolding claim_next
  claim_next-none e = rw (e, claim_next)

  -- What a claim does once the row is chosen: the tables of a claim, and the task if its kind parses.
  pub claim_next-some :
      (r : TaskRow)
      → IsValid db
      → next_row caps db.tasks ≡ some r
      → claim_next json now caps db ≡ (claimed_result (json.from_str r.kind) r, claimed now db r)
  unfolding claim_next claim_row
  claim_next-some r v e =
      let n = next_row-IsNext caps db r v e in
      let free = next_attempt_free now db v r n.fits n.only n.present in
      elim (Option-cases (json.from_str r.kind)) [
        | inl k ↦ rw (e, claim_next) (rw (free, k, claim_row))
        | inr (kind, k) ↦ rw (e, claim_next) (rw (free, k, claim_row))
      ]

-- A claim keeps the tables well formed, whether it finds a task, finds none or cannot read the kind.
pub claim_next-IsValid :
    (json : KindJson) (now : ℕ) (caps : Caps) (db : Db)
    → IsValid db
    → IsValid (claim_next json now caps db).1
claim_next-IsValid json now caps db v = elim (Option-cases (next_row caps db.tasks)) [
  | inl e ↦ rw (claim_next-none json now caps db e) v
  | inr (r, e) ↦
      let n = next_row-IsNext caps db r v e in
      rw (claim_next-some json now caps db r v e)
        (claimed-IsValid now db v r n.fits n.only n.present)
]
