-- ===== src/Gardener/Report.antt =====
-- The gardener's report: crates/gardener/src/report.rs.
use coven_github.Gardener.{
  SurfaceAction, SkipReason, SkipCode, PruneReason, PruneAction, GardenPlan, Autonomy,
}
use Prim.Native.Char.{len_utf8}
use mathlib.Core.Option as Option
use coven_github.Base.{
  ℕ, List, Option, String, [], code, decimal, get_or_else, if◌then◌else◌, is_empty, leb, length,
  ltb, nat_Eq, nat_eq, none, some, suc, text_Eq, zero, ◌-◌, ◌<>◌, ◌==◌, ◌∷◌,
}

pub record ExecutionCounts : Type 0 where
  pub pruned : ℕ
  pub prune_skipped_moved : ℕ
  pub surfaced : ℕ

abbrev pub no_counts : ExecutionCounts
no_counts = record { pruned = 0; prune_skipped_moved = 0; surfaced = 0 }

unfoldable pub summary_line : GardenPlan → ExecutionCounts → String
summary_line p n =
    "gardener: pruned "
    <> decimal n.pruned
    <> ", surfaced "
    <> decimal n.surfaced
    <> ", active "
    <> decimal (length p.active)
    <> ", skipped "
    <> decimal (length p.skipped)
    <> ", would-prune "
    <> decimal (length p.would_prune)

abbrev pub autonomy_name : Autonomy → String
autonomy_name Autonomy.propose = "propose"
autonomy_name Autonomy.prune_dead = "prune-dead"

abbrev pub max_of : ℕ → ℕ → ℕ
max_of a b = if ltb a b then b else a

-- The longest run of backticks, after a run of `current` and a longest run of `longest`.
unfoldable pub longest_run_from : ℕ → ℕ → String → ℕ
longest_run_from longest current String.[] = longest
longest_run_from longest current (String.◌∷◌ c s) =
    if nat_eq (code c) b'`'
    then longest_run_from (max_of longest (suc current)) (suc current) s
    else longest_run_from longest 0 s

unfoldable pub longest_backtick_run : String → ℕ
unfolding longest_run_from
longest_backtick_run value = longest_run_from 0 0 value

abbrev pub repeat_text : String → ℕ → String
repeat_text s zero = ""
repeat_text s (suc n) = s <> repeat_text s n

unfoldable pub code_span : String → String
unfolding longest_backtick_run
code_span value =
    let run = longest_backtick_run value in
    let fence = repeat_text "`" (suc run) in
    if run == 0 then "`" <> value <> "`" else fence <> " " <> value <> " " <> fence

-- `get(..n)`: none past the end, or inside a character
unfoldable pub first_bytes : ℕ → String → Option String
first_bytes zero s = some ""
first_bytes (suc n) String.[] = none
first_bytes (suc n) (String.◌∷◌ c s) =
    let rest = first_bytes (suc n - len_utf8 c) s in
    if leb (len_utf8 c) (suc n) then Option.map (String.◌∷◌ c) rest else none

unfoldable pub short_sha : String → String
unfolding first_bytes
short_sha sha = get_or_else (first_bytes 7 sha) sha

abbrev pub format_prune_reason : PruneReason → String
format_prune_reason PruneReason.dead = "dead"
format_prune_reason (PruneReason.merged pr) = "merged PR #" <> decimal pr

abbrev pub format_skip_reason : SkipCode → String
format_skip_reason SkipCode.excluded = "excluded"
format_skip_reason SkipCode.bot_only_prless = "bot-only-prless"
format_skip_reason SkipCode.withheld = "withheld"

unfoldable pub format_prune_action : PruneAction → String
unfolding code_span short_sha
format_prune_action a =
    "- "
    <> code_span a.branch
    <> " @ `"
    <> short_sha a.sha
    <> "` — "
    <> format_prune_reason a.reason

abbrev pub pr_text : Option ℕ → String
pr_text none = "draft PR planned"
pr_text (some n) = "draft PR #" <> decimal n

abbrev pub label_text : Option String → String
label_text none = ""
label_text (some label) = ", label `" <> label <> "`"

unfoldable pub format_surface_action : SurfaceAction → String
unfolding code_span short_sha
format_surface_action a =
    "- "
    <> code_span a.branch
    <> " @ `"
    <> short_sha a.sha
    <> "` — "
    <> pr_text a.pr_number
    <> label_text a.draft_pr_label

unfoldable pub format_skip : SkipReason → String
unfolding code_span
format_skip s = "- " <> code_span s.branch <> " — " <> format_skip_reason s.reason

abbrev pub lines_of {ℓ} : {A : Type ℓ} → (A → String) → List A → String
lines_of f [] = ""
lines_of f (x ∷ xs) = f x <> "\n" <> lines_of f xs

-- The three kinds of section differ in what they write for an entry.
unfoldable pub write_section {ℓ} : {A : Type ℓ} → String → (A → String) → List A → String
write_section title f xs =
    "\n### " <> title <> "\n" <> (if is_empty xs then "- _(none)_\n" else lines_of f xs)

abbrev pub count_line : String → ℕ → String
count_line name n = "| " <> name <> " | " <> decimal n <> " |\n"

unfoldable pub comment_body : GardenPlan → ExecutionCounts → String → Autonomy → String
unfolding write_section format_prune_action format_surface_action format_skip
comment_body p n repo autonomy =
    "🌿 Branch Gardener for `"
    <> repo
    <> "`\n\nAutonomy: `"
    <> autonomy_name autonomy
    <> "`\n\n| count | value |\n| --- | ---: |\n"
    <> count_line "pruned" n.pruned
    <> count_line "prune-skipped-moved" n.prune_skipped_moved
    <> count_line "surfaced" n.surfaced
    <> count_line "active" (length p.active)
    <> count_line "skipped" (length p.skipped)
    <> count_line "would-prune" (length p.would_prune)
    <> write_section "Pruned" format_prune_action p.prune
    <> write_section "Would prune" format_prune_action p.would_prune
    <> write_section "Surfaced" format_surface_action p.surface
    <> write_section "Skipped" format_skip p.skipped
