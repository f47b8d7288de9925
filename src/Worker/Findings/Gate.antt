-- ===== src/Worker/Findings/Gate.antt =====
-- What the gate lets through (crates/worker/src/findings.rs).
use coven_github.Worker.Findings.Once.{due, loop-once, loop-dropped, count_where-sort_by}
use native.Mathlib.Nat.{le_trans}
use coven_github.Worker.Session.{ReviewSeverity, ReviewResult, ReviewFinding}
use coven_github.Base.{
  All, All-insert_by, All-map, All-sort_by, All_mem, Bool-cases, List, Memᴰ, Option, String, [],
  any, arith, contains, false, inl, inr, insert_by, length, length-sort_by, nat_Eq, refl, sort_by,
  text_Eq, true, ◌+◌, ◌∷◌, ◌≡◌, ◌≤◌, count_where, if◌then◌else◌, not, ◌&&◌, ◌∙◌,
}
use coven_github.Worker.Findings.{
  below, dropped_total, gate, gate_loop, more_severe, rank, same_key, scope_files,
}

-- The finding is one of the review, of a file in scope, and severe enough.
abbrev pub Publishable : ReviewResult → List String → Option ReviewSeverity → ReviewFinding → Type 0
Publishable review changed_files min_severity f =
    Memᴰ f review.findings
    × (contains f.file (scope_files review changed_files) ≡ true)
    × (below min_severity f.severity ≡ false)

-- No finding is followed by a more severe one.
abbrev pub Descending : List ReviewFinding → Type 0
Descending [] = Unit
Descending (f ∷ fs) =
    All (λ (g : ReviewFinding). rank g.severity ≤ rank f.severity) fs × Descending fs

Descending-insert_by :
    (f : ReviewFinding) (fs : List ReviewFinding)
    → Descending fs
    → Descending (insert_by more_severe f fs)
unfolding insert_by
Descending-insert_by f [] d = (tt, tt)
Descending-insert_by f (g ∷ gs) d = elim (Bool-cases (more_severe g f)) [
  | inl e ↦
      rw e (All-insert_by _ more_severe f gs (ground (arith, e)) d.0, Descending-insert_by f gs d.1)
  | inr e ↦
      let le : rank g.severity ≤ rank f.severity = ground (arith, e) in
      rw e ((le, All-map gs (λ h k. le_trans k le) d.0), d)
]

Descending-sort_by : (fs : List ReviewFinding) → Descending (sort_by more_severe fs)
unfolding sort_by
Descending-sort_by [] = tt
Descending-sort_by (f ∷ fs) =
    Descending-insert_by f (sort_by more_severe fs) (Descending-sort_by fs)

module _ (in_scope : List String) (min_severity : Option ReviewSeverity) where
  loop-counts :
      (seen findings : List ReviewFinding)
      → let o = gate_loop in_scope min_severity seen findings in
        length o.published + dropped_total o ≡ length findings
  unfolding gate_loop dropped_total
  loop-counts seen [] = refl
  loop-counts seen (f ∷ findings) =
      ground (arith, loop-counts seen findings, loop-counts (f ∷ seen) findings)

  loop-All :
      (P : ReviewFinding → Type 0) (seen findings : List ReviewFinding)
      → All P findings
      → All
          (λ f. P f × (contains f.file in_scope ≡ true) × (below min_severity f.severity ≡ false))
          (gate_loop in_scope min_severity seen findings).published
  unfolding gate_loop
  loop-All P seen [] h = tt
  loop-All P seen (f ∷ findings) h = elim (Bool-cases (contains f.file in_scope)) [
    | inr s ↦ rw s (loop-All P seen findings h.1)
    | inl s ↦ elim (Bool-cases (below min_severity f.severity)) [
      | inl b ↦ rw (s, b) (loop-All P seen findings h.1)
      | inr b ↦ elim (Bool-cases (any (λ (g : ReviewFinding). same_key g f) seen)) [
        | inl q ↦ rw (s, b, q) (loop-All P seen findings h.1)
        | inr q ↦ rw (s, b, q) ((h.0, s, b), loop-All P (f ∷ seen) findings h.1)
      ]
    ]
  ]

-- Every finding that the gate publishes is one of the review's, of a file that was reviewed, was
-- supporting or changed, and at least as severe as the threshold; the most severe come first. For
-- every file, line and title (those of any `f`), exactly one finding is published if the review has
-- one with them that is in scope and severe enough, and none if it has not. The findings counted as
-- out of scope, and as below the threshold, are those that are; with the rest, which are duplicates,
-- and the published ones they are as many as the review's.
pub gate_lem :
    (review : ReviewResult) (changed_files : List String) (min_severity : Option ReviewSeverity)
    → let o = gate review changed_files min_severity in
      let in_scope = scope_files review changed_files in
      All (Publishable review changed_files min_severity) o.published
      × Descending o.published
      × ((f : ReviewFinding)
          → count_where (λ (g : ReviewFinding). same_key g f) o.published
            ≡ (if due in_scope min_severity f review.findings then 1 else 0))
      × (o.dropped_out_of_scope
          ≡ count_where (λ (h : ReviewFinding). not (contains h.file in_scope)) review.findings)
      × (o.dropped_below_threshold
          ≡ count_where
              (λ (h : ReviewFinding). contains h.file in_scope && below min_severity h.severity)
              review.findings)
      × (length o.published + dropped_total o ≡ length review.findings)
unfolding gate dropped_total
gate_lem review changed_files min_severity =
    let in_scope = scope_files review changed_files in
    let o = gate_loop in_scope min_severity [] review.findings in
    let (out_of_scope, below_threshold) = loop-dropped in_scope min_severity [] review.findings in
    (
      All-sort_by _ more_severe o.published (
          loop-All in_scope min_severity (λ f. Memᴰ f review.findings) [] review.findings
            (All_mem review.findings)),
      Descending-sort_by o.published,
      λ f.
          count_where-sort_by (λ (g : ReviewFinding). same_key g f) more_severe o.published
          ∙ loop-once in_scope min_severity f [] review.findings,
      out_of_scope,
      below_threshold,
      rw length-sort_by (loop-counts in_scope min_severity [] review.findings),
    )
