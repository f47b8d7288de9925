-- ===== src/Worker/Findings.antt =====
-- The gate that a review's findings pass before they publish (crates/worker/src/findings.rs).
pub mod Gate
pub mod Once
pub mod Digest
use coven_github.Base.{
  ℕ, Bool, List, Option, String, [], any, contains, false, if◌then◌else◌, ltb, nat_Eq, none, not,
  some, sort_by, text_Eq, true, ◌&&◌, ◌++◌, ◌+◌, ◌==◌, ◌∷◌,
}
use coven_github.Worker.Session.{ReviewResult, ReviewFinding, ReviewSeverity}

pub record GateOutcome : Type 0 where
  pub published : List ReviewFinding
  pub dropped_out_of_scope : ℕ
  pub dropped_below_threshold : ℕ
  pub dropped_duplicates : ℕ

unfoldable pub dropped_total : GateOutcome → ℕ
dropped_total o = o.dropped_out_of_scope + o.dropped_below_threshold + o.dropped_duplicates

unfoldable pub rank : ReviewSeverity → ℕ
rank ReviewSeverity.info = 0
rank ReviewSeverity.low = 1
rank ReviewSeverity.medium = 2
rank ReviewSeverity.high = 3
rank ReviewSeverity.critical = 4

abbrev pub below : Option ReviewSeverity → ReviewSeverity → Bool
below none s = false
below (some least) s = ltb (rank s) (rank least)

abbrev pub same_line : Option ℕ → Option ℕ → Bool
same_line none none = true
same_line (some a) (some b) = a == b
same_line _ _ = false

-- The key (file, line, title) of the set of those seen.
unfoldable pub same_key : ReviewFinding → ReviewFinding → Bool
same_key a b = a.file == b.file && same_line a.line b.line && a.title == b.title

abbrev pub nothing_yet : GateOutcome
nothing_yet = record {
  published = [];
  dropped_out_of_scope = 0;
  dropped_below_threshold = 0;
  dropped_duplicates = 0;
}

module _ (in_scope : List String) (min_severity : Option ReviewSeverity) where
  -- The loop: the keys seen so far are those of the findings `seen`.
  unfoldable pub gate_loop : List ReviewFinding → List ReviewFinding → GateOutcome
  unfolding same_key
  gate_loop seen [] = nothing_yet
  gate_loop seen (f ∷ findings) =
      let rest = gate_loop seen findings in
      let taken = gate_loop (f ∷ seen) findings in
      if not (contains f.file in_scope)
      then record rest { dropped_out_of_scope = rest.dropped_out_of_scope + 1 }
      else if below min_severity f.severity
      then record rest { dropped_below_threshold = rest.dropped_below_threshold + 1 }
      else if any (λ (g : ReviewFinding). same_key g f) seen
      then record rest { dropped_duplicates = rest.dropped_duplicates + 1 }
      else record taken { published = f ∷ taken.published }

-- sort_by_key(Reverse(rank)), which is stable
abbrev pub more_severe : ReviewFinding → ReviewFinding → Bool
more_severe a b = ltb (rank b.severity) (rank a.severity)

abbrev pub scope_files : ReviewResult → List String → List String
scope_files review changed_files = review.reviewed_files ++ review.supporting_files ++ changed_files

abbrev pub sorted_outcome : GateOutcome → GateOutcome
sorted_outcome o = record o { published = sort_by more_severe o.published }

unfoldable pub gate : ReviewResult → List String → Option ReviewSeverity → GateOutcome
unfolding gate_loop rank
gate review changed_files min_severity =
    sorted_outcome (gate_loop (scope_files review changed_files) min_severity [] review.findings)
