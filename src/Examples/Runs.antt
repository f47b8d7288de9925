-- ===== src/Examples/Runs.antt =====
-- The theorems on scheduled and gardener runs, applied (crates/worker/src/gardener_schedule.rs,
-- crates/worker/src/gardener_exec.rs, crates/gardener/src/schedule.rs).
use coven_github.Store.Deliveries.{
  task_row, delivery_row, record_delivery_sync, record_delivery, supersede_key, tombstone_older,
}
use coven_github.Examples.{garden, sample_json, tables}
use coven_github.Worker.Schedule.{
  sanitize_id, repo_matches_installation_account, due_run, insert_text, collect_texts,
  scheduled_repo_candidates, scheduled_familiar_id, due_runs_of, enqueue_all, due_runs,
  enqueue_due_gardener_runs,
}
use coven_github.Examples.Plans.{cfg, cody}
use coven_github.Worker.Schedule.Once.{enqueue_due_gardener_runs-twice}
use coven_github.Store.Schema.{ok, empty, Db}
use coven_github.Worker.GardenRun.{garden_policy_of, garden_scanned}
use coven_github.Examples.Garden.{scanned}
use coven_github.Gardener.Schedule.Daily.{parse_schedule-daily}
use coven_github.Gardener.Schedule.{
  slot_name, scheduled_minute, parse_field, slot_id, parse_schedule, Schedule,
}
use coven_github.Config.Gardener.{ResolvedGardenerPolicy, gardener_policy}
use coven_github.Gardener.Pruning.{Prunable}
use coven_github.Worker.GardenRun.Guarded.{Keeps, garden_scanned-guarded}
use coven_github.Worker.Hub.{lost, got, Reply, Hub}
use coven_github.Gardener.{Autonomy}
use coven_github.Base.{
  List, String, [], false, if◌then◌else◌, keyed, nat_Eq, none, parse_u64, refl, some,
  split_whitespace, text_Eq, true, ◌*◌, ◌+◌, ◌/◌, ◌==◌, ◌∷◌, ◌≡◌, ◌≢◌, Bool-cases, ap, decimal,
  eq_of_==, inl, inr, split_once, ◌∙◌, to_ascii_lowercase,
}

abbrev at_four : Schedule
at_four = record { minute = 0; hour = 4 }

four_parses : parse_schedule "0 4 * * *" ≡ some at_four
unfolding parse_schedule parse_field split_whitespace parse_u64
four_parses = refl

parse_schedule-daily_example :
    (slot_id at_four (20000 * 1440 + scheduled_minute at_four) ≡ some (slot_name at_four 20000))
    × (28800240 / 1440 ≡ 20000
        → slot_id at_four 28800240 ≢ none
        → 28800240 ≡ 20000 * 1440 + scheduled_minute at_four)
parse_schedule-daily_example = parse_schedule-daily "0 4 * * *" at_four 20000 28800240 four_parses

-- Two branches of one repository's GitHub, by name and commit; others change nothing.
abbrev Branches : Type 0
Branches = List (String × String)

unfoldable remove : String → Branches → Branches
remove name [] = []
remove name ((j, sha) ∷ branches) =
    let rest = remove name branches in if j == name then rest else (j, sha) ∷ rest

abbrev sha_of : Branches → String → Reply String
sha_of w branch = elim (keyed w branch) [ none ↦ lost "not found" | some sha ↦ got sha ]

abbrev small_hub : Hub Branches
small_hub = record {
  mint = λ w role. (got "token", w);
  get_repo = λ w. (got "main", w);
  list_branches = λ w. (got [], w);
  compare_ahead_behind = λ w base head. (lost "unused", w);
  list_pulls_by_head = λ w branch. (got [], w);
  get_branch_sha = λ w branch. (sha_of w branch, w);
  delete_ref = λ w branch. (got true, remove branch w);
  open_pull_request = λ w head base title body. (got 9, w);
  add_labels_to_issue = λ w n label. (got true, w);
  get_collaborator_permission = λ w username. (got "read", w);
  get_pull_request_refs = λ w n. (lost "unused", w);
  get_pull_request_files = λ w n. (got [], w);
  create_check = λ w head_sha name details_url. (got 1, w);
  update_check = λ w n title summary. (got true, w);
  complete_check = λ w n conclusion title summary. (got true, w);
  submit_review = λ w n verdict body. (got true, w);
  list_comments = λ w n. (got [], w);
  update_comment = λ w n body. (got true, w);
  post_comment = λ w n body. (got true, w);
}

abbrev two_branches : Branches
two_branches = ("main", "abc") ∷ ("fix-typo", "abc") ∷ []

abbrev resolved : ResolvedGardenerPolicy
resolved = record {
  enabled = true;
  autonomy = Autonomy.prune_dead;
  schedule = "0 4 * * *";
  exclude = "release/*" ∷ [];
  draft_pr_label = none;
}

-- The default branch is there.
abbrev HasMain : Branches → Type 0
HasMain w = keyed w "main" ≡ some "abc"

keyed-remove :
    (name : String) (w : Branches) → (name == "main") ≡ false → HasMain w → HasMain (remove name w)
unfolding remove
keyed-remove name [] other h = h
keyed-remove name ((j, sha) ∷ w) other h = elim (Bool-cases (j == name)) [
  | inl e ↦
      let apart = ap (λ (x : String). x == "main") (eq_of_== j name e) ∙ other in
      rw (e, remove) (keyed-remove name w other (rw apart at h))
  | inr e ↦ elim (Bool-cases (j == "main")) [
    | inl m ↦ rw (e, m, remove) (rw m at h)
    | inr m ↦ rw (e, m, remove) (keyed-remove name w other (rw m at h))
  ]
]

small_keeps : Keeps small_hub HasMain (Prunable scanned (garden_policy_of resolved "main"))
small_keeps = record {
  mint = λ w role h. h;
  read = λ w branch h. h;
  delete = λ w a allowed h e.
      keyed-remove a.branch w
        (ap (λ (n : String). n == "main") allowed.branch ∙ allowed.bare.not_default) h;
  surface = λ w head base title body h. h;
  label = λ w n label h. h;
  list = λ w n h. h;
  update = λ w n body h. h;
  post = λ w n body h. h;
}

garden_scanned-guarded_example :
    (after : Db × Branches) × (garden_scanned small_hub "token" cody garden 30 tables two_branches
        (some 3)
        resolved
        "main"
        scanned
      ≡ some after)
    × HasMain after.1
garden_scanned-guarded_example =
    garden_scanned-guarded small_hub "token" cody garden 30 tables two_branches (some 3) resolved
      "main" scanned HasMain small_keeps refl

-- Both installations have a repository that is due at four.
two_due : (enqueue_due_gardener_runs sample_json 40 cfg empty 28800240).0 ≡ ok 2
unfolding enqueue_due_gardener_runs due_runs enqueue_all due_runs_of scheduled_familiar_id
    scheduled_repo_candidates collect_texts insert_text due_run repo_matches_installation_account
    gardener_policy parse_schedule parse_field split_whitespace parse_u64 slot_id scheduled_minute
    slot_name sanitize_id split_once decimal record_delivery record_delivery_sync delivery_row
    task_row tombstone_older supersede_key to_ascii_lowercase
two_due = refl

enqueue_due_gardener_runs-twice_example :
    let after = (enqueue_due_gardener_runs sample_json 40 cfg empty 28800240).1 in
    enqueue_due_gardener_runs sample_json 41 cfg after 28800240 ≡ (ok 0, after)
enqueue_due_gardener_runs-twice_example =
    enqueue_due_gardener_runs-twice sample_json 40 41 cfg empty 28800240 2 two_due

-- Two repositories whose task ids are the same.
same_id : sanitize_id "acme/web.api" ≡ sanitize_id "acme/web-api"
unfolding sanitize_id to_ascii_lowercase
same_id = refl
