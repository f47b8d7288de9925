-- ===== src/Examples/Findings.antt =====
-- The theorem on the findings gate, applied (crates/worker/src/findings.rs).
use coven_github.Worker.Findings.Once.{due}
use coven_github.Worker.Findings.{dropped_total, gate, below, same_key, scope_files}
use coven_github.Worker.Findings.Gate.{gate_lem, Publishable, Descending}
use coven_github.Base.{
  All, String, [], length, none, some, ◌+◌, ◌∷◌, ◌≡◌, contains, count_where, if◌then◌else◌, nat_Eq,
  not, text_Eq, ◌&&◌,
}
use coven_github.Worker.Session.{
  ReviewResult, ReviewEvidenceStatus, ReviewFinding, ReviewMode, ReviewSeverity,
}

abbrev finding : ReviewSeverity → String → ReviewFinding
finding severity file = record {
  severity = severity;
  file = file;
  line = some 3;
  title = "Unchecked index";
  body = "";
  recommendation = none;
}

abbrev reviewed : ReviewResult
reviewed = record {
  mode = ReviewMode.pull_request;
  evidence_status = ReviewEvidenceStatus.complete;
  reviewed_files = "a.rs" ∷ [];
  supporting_files = "b.rs" ∷ [];
  findings =
      finding ReviewSeverity.low "a.rs"
      ∷ finding ReviewSeverity.high "b.rs"
      ∷ finding ReviewSeverity.high "b.rs"
      ∷ finding ReviewSeverity.info "c.rs"
      ∷ finding ReviewSeverity.critical "d.rs"
      ∷ [];
  tests_run = [];
  no_findings_reason = none;
  limitations = [];
}

gate_lem_example :
    let o = gate reviewed ("c.rs" ∷ []) (some ReviewSeverity.low) in
    let in_scope = scope_files reviewed ("c.rs" ∷ []) in
    All (Publishable reviewed ("c.rs" ∷ []) (some ReviewSeverity.low)) o.published
    × Descending o.published
    × ((f : ReviewFinding)
        → count_where (λ (g : ReviewFinding). same_key g f) o.published
          ≡ (if due in_scope (some ReviewSeverity.low) f reviewed.findings then 1 else 0))
    × (o.dropped_out_of_scope
        ≡ count_where (λ (h : ReviewFinding). not (contains h.file in_scope)) reviewed.findings)
    × (o.dropped_below_threshold
        ≡ count_where
            (λ (h : ReviewFinding).
              contains h.file in_scope && below (some ReviewSeverity.low) h.severity)
            reviewed.findings)
    × (length o.published + dropped_total o ≡ length reviewed.findings)
gate_lem_example = gate_lem reviewed ("c.rs" ∷ []) (some ReviewSeverity.low)
