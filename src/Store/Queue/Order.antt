-- ===== src/Store/Queue/Order.antt =====
-- Which task `claim_next` takes (crates/store/src/lib.rs).
use coven_github.Store.Validity.Claiming.{
  next_row-All, claimed_result, claim_next-some, claim_next-none,
}
use coven_github.GitHub.{TaskKind, Task}
use coven_github.Store.Validity.{IsValid}
use mathlib.Core.Option.{some-injective}
use mathlib.Core.Path.{subst}
use coven_github.Base.{
  All, All-map, Bool-cases, List, Option, [], arith, earlier, first_by, first_by-none, inl, inr,
  none, refl, some, ◌∷◌, ◌≡◌, ◌≤◌, All_mem, Memᴰ, Option-cases, false, select_where,
  select_where-All, true, ℕ, false_of_not_true, ◌≢◌,
}
use coven_github.Store.Schema.{TaskRow, Db, KindJson, ok}
use coven_github.Store.Queue.{
  older, Caps, capped, claim_next, claimable, claimed, next_row, task_of,
}

abbrev NoLater : TaskRow → TaskRow → Type 0
NoLater r t = r.created_at ≤ t.created_at

-- The row that `earlier` takes was created no later than the others.
earlier-NoLater :
    (x : TaskRow) (xs : List TaskRow) (o : Option TaskRow) {z : TaskRow}
    → ((y : TaskRow) → o ≡ some y → All (NoLater y) xs)
    → (o ≡ none → All (NoLater x) xs)
    → earlier older x o ≡ some z
    → All (NoLater z) (x ∷ xs)
unfolding earlier older
earlier-NoLater x xs none rest nil e =
    subst (λ (z : TaskRow). All (NoLater z) (x ∷ xs)) (some-injective _ _ e) (omega arith, nil refl)
earlier-NoLater x xs (some y) rest nil e = elim (Bool-cases (older y x)) [
  | inl q ↦
      subst (λ (z : TaskRow). All (NoLater z) (x ∷ xs)) (some-injective _ _ (rw q at e))
        (ground (arith, q), rest y refl)
  | inr q ↦
      subst (λ (z : TaskRow). All (NoLater z) (x ∷ xs)) (some-injective _ _ (rw q at e))
        (omega arith, All-map xs (λ t h. ground (arith, q, h)) (rest y refl))
]

first_by-NoLater :
    (xs : List TaskRow) {z : TaskRow} → first_by older xs ≡ some z → All (NoLater z) xs
unfolding first_by
first_by-NoLater [] e = cc
first_by-NoLater (x ∷ xs) e =
    earlier-NoLater x xs (first_by older xs) (λ y q. first_by-NoLater xs q)
      (first_by-none (NoLater x) older xs) e

module _ (caps : Caps) (db : Db) where
  next_row-oldest :
      {r : TaskRow}
      → next_row caps db.tasks ≡ some r
      → All (NoLater r) (select_where (claimable (capped caps db.tasks)) db.tasks)
  unfolding next_row
  next_row-oldest e = first_by-NoLater (select_where (claimable (capped caps db.tasks)) db.tasks) e

  next_row-none :
      next_row caps db.tasks ≡ none
      → All (λ t. claimable (capped caps db.tasks) t ≡ true → ⊥) db.tasks
  unfolding next_row
  next_row-none e =
      select_where-All (λ _. ⊥) (claimable (capped caps db.tasks)) db.tasks
        (first_by-none (λ _. ⊥) older (select_where (claimable (capped caps db.tasks)) db.tasks) e)

-- What a claim that returned task `t` did: `r` is the row of the task, it could be claimed, no row
-- that could be claimed is older, and the tables are those after the claim of `r`.
pub record Took (caps : Caps) (now : ℕ) (db after : Db) (t : Task) : Type 0 where
  pub row : TaskRow
  pub stored : Memᴰ row db.tasks
  pub same : t.id ≡ row.id
  pub could : claimable (capped caps db.tasks) row ≡ true
  pub oldest :
      All
        (λ (u : TaskRow). row.created_at ≤ u.created_at)
        (select_where (claimable (capped caps db.tasks)) db.tasks)
  pub tables : after ≡ claimed now db row

module _ (json : KindJson) (now : ℕ) (caps : Caps) (db : Db) (v : IsValid db) where
  id-claimed_result :
      (k : Option TaskKind) (r : TaskRow) {t : Task}
      → claimed_result k r ≡ ok (some t)
      → t.id ≡ r.id
  unfolding task_of
  id-claimed_result none r e = cc
  id-claimed_result (some kind) r e = ground (arith, e)

  claimed_result-ne-idle : (k : Option TaskKind) (r : TaskRow) → claimed_result k r ≢ ok none
  claimed_result-ne-idle none r e = cc
  claimed_result-ne-idle (some kind) r e = cc

  -- On well-formed tables, a claim that returns a task took the oldest of the rows that could be
  -- claimed.
  pub claim_next_fifo :
      (t : Task)
      → (claim_next json now caps db).0 ≡ ok (some t)
      → Took caps now db (claim_next json now caps db).1 t
  claim_next_fifo t e = elim (Option-cases (next_row caps db.tasks)) [
    | inl q ↦ cc (rw (claim_next-none json now caps db q) at e)
    | inr (r, q) ↦
        let s = claim_next-some json now caps db r v q in
        let (m, could) =
          next_row-All (λ (u : TaskRow). Memᴰ u db.tasks) caps db.tasks (All_mem db.tasks) q in
        rw s (record {
          row = r;
          stored = m;
          same = id-claimed_result (json.from_str r.kind) r (rw s at e);
          could = could;
          oldest = next_row-oldest caps db q;
          tables = refl;
        })
  ]

  -- On well-formed tables, a claim returns nothing only where no row could be claimed, and then
  -- changes nothing.
  pub claim_next_idle :
      (claim_next json now caps db).0 ≡ ok none
      → All (λ (u : TaskRow). claimable (capped caps db.tasks) u ≡ false) db.tasks
        × ((claim_next json now caps db).1 ≡ db)
  claim_next_idle e = elim (Option-cases (next_row caps db.tasks)) [
    | inl q ↦
        rw (claim_next-none json now caps db q) (
          All-map db.tasks (λ u no_row. false_of_not_true _ no_row) (next_row-none caps db q),
          refl,
        )
    | inr (r, q) ↦ absurd (
        claimed_result-ne-idle (json.from_str r.kind) r
          (rw (claim_next-some json now caps db r v q) at e))
  ]
