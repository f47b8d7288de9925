-- ===== src/Store/Queue/Caps.antt =====
-- The concurrency caps of `claim_next` (crates/store/src/lib.rs): how many tasks of an installation
-- run at once.
use mathlib.Core.Bool.{false≢true}
use native.Mathlib.Decide.{dec_lt}
use coven_github.Store.Validity.Claiming.{claim_next-some, next_row-IsNext, claim_next-none}
use mathlib.Core.Path.{subst}
use coven_github.Store.Validity.{IsValid}
use coven_github.Base.{
  ℕ, Bool, Bool-cases, List, [], any, arith, count_where, if◌then◌else◌, inl, inr, nat_Eq, refl,
  some, text_Eq, true, ◌&&◌, ◌+◌, ◌<◌, ◌==◌, ◌∷◌, ◌≡◌, ◌≤◌, All, Distinct, delete_where, eq_of_==,
  false, update_where, All_of_any-false, Option-cases, String, ap, sym, ◌∙◌, and-eq-true,
  false_of_not-eq-true,
}
use coven_github.Store.Schema.{TaskRow, is_running, Db, KindJson}
use coven_github.Store.Queue.{
  Caps, bump, cap_of, capped_among, running_counts, has_id, reached, started, capped, claim_next,
  claimable, claimed, next_row,
}

abbrev pub runs_for : ℕ → TaskRow → Bool
runs_for i t = is_running t.state && (t.installation_id == i)

-- How many tasks of the installation run.
unfoldable pub running_of : ℕ → List TaskRow → ℕ
running_of i rows = count_where (runs_for i) rows

unfoldable pub count_in : ℕ → List (ℕ × ℕ) → ℕ
count_in i [] = 0
count_in i ((j, n) ∷ groups) = if j == i then n else count_in i groups

count_in-bump :
    (i j : ℕ) (groups : List (ℕ × ℕ))
    → count_in i (bump j groups) ≡ (if j == i then count_in i groups + 1 else count_in i groups)
unfolding count_in bump
count_in-bump i j [] = ground arith
count_in-bump i j ((k, n) ∷ groups) = ground (arith, count_in-bump i j groups)

-- The groups count what runs.
pub count_in-running_counts :
    (i : ℕ) (rows : List TaskRow) → count_in i (running_counts rows) ≡ running_of i rows
unfolding running_counts running_of count_where count_in
count_in-running_counts i [] = refl
count_in-running_counts i (r ∷ rows) =
    ground (
      arith,
      count_in-bump i r.installation_id (running_counts rows),
      count_in-running_counts i rows,
    )

reached_of_le :
    (caps : Caps) (i j cap n : ℕ)
    → cap_of i caps ≡ some cap
    → j ≡ i
    → cap ≤ n
    → reached (cap_of j caps) n ≡ true
reached_of_le caps i j cap n e same h = rw (same, e) (ground (arith, h))

-- An installation whose group has reached its cap is among the capped.
pub capped_among_reached :
    (caps : Caps) (i cap : ℕ) (groups : List (ℕ × ℕ))
    → cap_of i caps ≡ some cap
    → 0 < cap
    → cap ≤ count_in i groups
    → any (λ (j : ℕ). j == i) (capped_among caps groups) ≡ true
unfolding count_in capped_among
capped_among_reached caps i cap [] e pos h = absurd (omega arith)
capped_among_reached caps i cap ((j, n) ∷ groups) e pos h = elim (Bool-cases (j == i)) [
  | inl q ↦ ground (arith, q, reached_of_le caps i j cap n e (eq_of_== j i q) (rw q at h))
  | inr q ↦ ground (arith, q, capped_among_reached caps i cap groups)
]

-- The rows that an update leaves running, where it starts none.
pub running_of-update_where :
    (i : ℕ) (p : TaskRow → Bool) (f : TaskRow → TaskRow) (rows : List TaskRow)
    → ((t : TaskRow) → p t ≡ true → runs_for i (f t) ≡ true → runs_for i t ≡ true)
    → running_of i (update_where p f rows) ≤ running_of i rows
unfolding running_of count_where update_where
running_of-update_where i p f [] quiet = omega arith
running_of-update_where i p f (t ∷ rows) quiet =
    ground (arith, quiet t, running_of-update_where i p f rows quiet)

pub running_of-delete_where :
    (i : ℕ) (p : TaskRow → Bool) (rows : List TaskRow)
    → running_of i (delete_where p rows) ≤ running_of i rows
unfolding running_of count_where delete_where
running_of-delete_where i p [] = omega arith
running_of-delete_where i p (t ∷ rows) = ground (arith, running_of-delete_where i p rows)

-- A claim starts one row, of its own installation.
module _ (now : ℕ) (r : TaskRow) where
  running_of-absent :
      (i : ℕ) (rows : List TaskRow)
      → All (λ (t : TaskRow). (t.id == r.id) ≡ false) rows
      → running_of i (update_where (has_id r.id) (started now) rows) ≡ running_of i rows
  unfolding running_of count_where update_where
  running_of-absent i [] h = refl
  running_of-absent i (t ∷ rows) h = rw h.0 (ground (arith, running_of-absent i rows h.1))

  -- Rows of an id other than `r`'s are not touched.
  pub running_of-started :
      (i : ℕ) (rows : List TaskRow)
      → Distinct (λ (t : TaskRow). t.id) rows
      → All (λ (t : TaskRow). t.id ≡ r.id → t ≡ r) rows
      → running_of i (update_where (has_id r.id) (started now) rows)
        ≤ running_of i rows + (if r.installation_id == i then 1 else 0)
  unfolding running_of count_where update_where
  running_of-started i [] d h = omega arith
  running_of-started i (t ∷ rows) d h = elim (Bool-cases (t.id == r.id)) [
    | inr q ↦ rw q (ground (arith, running_of-started i rows d.1 h.1))
    | inl q ↦
        let same = h.0 (eq_of_== _ _ q) in
        let others =
          subst (λ (x : String). any (λ (u : TaskRow). u.id == x) rows ≡ false) (eq_of_== _ _ q)
            d.0 in
        let rest = running_of-absent i rows (All_of_any-false _ rows others) in
        let home = ap (λ (u : TaskRow). u.installation_id) same in rw q (ground (arith, rest, home))
  ]

-- An installation that is not among the capped runs fewer tasks than its cap.
not_capped-lt :
    (caps : Caps) (i cap : ℕ) (rows : List TaskRow)
    → cap_of i caps ≡ some cap
    → 0 < cap
    → any (λ (j : ℕ). j == i) (capped caps rows) ≡ false
    → running_of i rows < cap
unfolding capped cap_of
not_capped-lt [] i cap rows e pos h = cc
not_capped-lt (c ∷ caps) i cap rows e pos h = elim (dec_lt (running_of i rows) cap) [
  | yes below ↦ below
  | no above ↦ absurd (
      false≢true (
        sym h
        ∙ capped_among_reached (c ∷ caps) i cap (running_counts rows) e pos
            (rw count_in-running_counts (omega (arith, above)))))
]

-- A claim keeps an installation within its cap.
pub claim_next_cap :
    (json : KindJson) (now : ℕ) (caps : Caps) (db : Db) (i cap : ℕ)
    → cap_of i caps ≡ some cap
    → 0 < cap
    → IsValid db
    → running_of i db.tasks ≤ cap
    → running_of i (claim_next json now caps db).1.tasks ≤ cap
unfolding claimed claimable
claim_next_cap json now caps db i cap e pos v within =
    elim (Option-cases (next_row caps db.tasks)) [
      | inl q ↦ rw (claim_next-none json now caps db q) within
      | inr (r, q) ↦
          let n = next_row-IsNext caps db r v q in
          let grown = running_of-started now r i db.tasks v.distinct_tasks n.only in
          rw (claim_next-some json now caps db r v q) (elim (Bool-cases (r.installation_id == i)) [
            | inr other ↦ omega (arith, rw other at grown, within)
            | inl mine ↦ omega (
              arith,
              rw mine at grown,
              not_capped-lt caps i cap db.tasks e pos (
                  subst (λ (x : ℕ). any (λ (j : ℕ). j == x) (capped caps db.tasks) ≡ false)
                    (eq_of_== _ _ mine) (false_of_not-eq-true _ (and-eq-true _ _ n.waits).1)),
            )
          ])
    ]
