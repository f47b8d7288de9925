-- ===== src/Worker/Findings/Digest.antt =====
-- The digest of a review's gated findings: `render`, `severity_label` and `parse_severity` of
-- crates/worker/src/findings.rs.
use Prim.Native.String.{len}
use coven_github.Worker.Session.{ReviewFinding, ReviewSeverity}
use coven_github.Worker.Findings.{GateOutcome, dropped_total}
use coven_github.Base.{
  ℕ, List, String, Option, [], decimal, if◌then◌else◌, is_empty, length, ltb, nat_Eq, none, some,
  text_Eq, to_ascii_lowercase, ◌+◌, ◌<>◌, ◌==◌, ◌∷◌,
}

abbrev max_len : ℕ
max_len = 48000

unfoldable pub severity_label : ReviewSeverity → String
severity_label ReviewSeverity.info = "INFO"
severity_label ReviewSeverity.low = "LOW"
severity_label ReviewSeverity.medium = "MEDIUM"
severity_label ReviewSeverity.high = "HIGH"
severity_label ReviewSeverity.critical = "CRITICAL"

unfoldable pub parse_severity : String → Option ReviewSeverity
parse_severity value =
    let v = to_ascii_lowercase value in
    if v == "info"
    then some ReviewSeverity.info
    else if v == "low"
    then some ReviewSeverity.low
    else if v == "medium"
    then some ReviewSeverity.medium
    else if v == "high"
    then some ReviewSeverity.high
    else if v == "critical"
    then some ReviewSeverity.critical
    else none

abbrev location_text : String → Option ℕ → String
location_text file none = "`" <> file <> "`"
location_text file (some line) = "`" <> file <> ":" <> decimal line <> "`"

abbrev recommendation_text : Option String → String
recommendation_text none = ""
recommendation_text (some rec) = "  _Recommendation: " <> rec <> "_\n"

abbrev pub entry_of : ReviewFinding → String
entry_of f =
    "- **"
    <> severity_label f.severity
    <> "** "
    <> location_text f.file f.line
    <> " — "
    <> f.title
    <> "\n  "
    <> f.body
    <> "\n"
    <> recommendation_text f.recommendation

-- The entries after the text so far, as long as they fit.
unfoldable pub entries : String → List ReviewFinding → String
unfolding severity_label
entries out [] = out
entries out (f ∷ findings) =
    let rest = entries (out <> entry_of f) findings in
    if ltb max_len (len out + len (entry_of f)) then out <> "- _…digest truncated._\n" else rest

abbrev withheld_text : GateOutcome → String
withheld_text o =
    if ltb 0 (dropped_total o)
    then "\n_"
      <> decimal (dropped_total o)
      <> " finding(s) withheld by publication gates: "
      <> decimal o.dropped_out_of_scope
      <> " out of scope, "
      <> decimal o.dropped_below_threshold
      <> " below the severity threshold, "
      <> decimal o.dropped_duplicates
      <> " duplicate(s)._"
    else ""

unfoldable pub render : GateOutcome → String
unfolding entries dropped_total
render o =
    (if is_empty o.published
      then "**Findings:** none published."
      else entries ("**Findings (" <> decimal (length o.published) <> " published):**\n")
          o.published)
    <> withheld_text o
