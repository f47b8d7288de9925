-- ===== src/Worker/Surface.antt =====
-- The texts of a task on its issue or pull request, and the refs it works on (crates/worker/src/lib.rs:
-- `cave_base_url` to `resolve_targets` and `surface_number`). `cave` is the `cave_base_url` of the
-- configuration's server.
use coven_github.GitHub.{
  garden_run, cancel_reviews, address_review_comment, command_reply, fix_issue, review_pull_request,
  respond_to_mention, TaskKind, Task, surface_of,
}
use coven_github.Config.{FamiliarConfig}
use coven_github.Worker.Session.{SessionResult, SessionStatus}
use coven_github.Worker.Hub.{Reply, Hub, got, lost}
use coven_github.Base.{
  ℕ, List, String, Option, map, Bool, [], decimal, false, if◌then◌else◌, is_empty, nat_Eq, none,
  not, refl, some, text_Eq, trim_end_matches, ◌<>◌, ◌==◌, ◌||◌, ◌∷◌, ◌≡◌,
}

abbrev default_cave_base_url : String
default_cave_base_url = "https://cave.opencoven.ai"

abbrev pub cave_base_url : Option String → String
cave_base_url none = default_cave_base_url
cave_base_url (some url) = url

unfoldable pub cave_session_url : Option String → String → String
unfolding trim_end_matches
cave_session_url cave task_id = trim_end_matches "/" (cave_base_url cave) <> "/sessions/" <> task_id

unfoldable pub starting_comment : Option String → FamiliarConfig → String → String
unfolding cave_session_url
starting_comment cave familiar task_id =
    familiar.display_name
    <> " is working on this.\n\nSession: "
    <> cave_session_url cave task_id
    <> "\n\nI'll open a draft PR if the run produces reviewable changes."

unfoldable pub joined : String → List String → String
joined between [] = ""
joined between (x ∷ []) = x
joined between (x ∷ y ∷ rest) = x <> between <> joined between (y ∷ rest)

abbrev done_body : String → SessionResult → Option ℕ → String
done_body session result none = "Status: done\n\n" <> result.summary <> "\n\nSession: " <> session
done_body session result (some pr_number) =
    "Status: done\n\n"
    <> result.summary
    <> "\n\nPR #"
    <> decimal pr_number
    <> " opened. Session: "
    <> session

abbrev status_text : String → SessionResult → SessionStatus → Option ℕ → String
status_text session result SessionStatus.needs_input opened_pr =
    "Status: needs input\n\n" <> result.summary <> "\n\nReply on this thread to continue. Session: "
    <> session
status_text session result SessionStatus.failure opened_pr =
    "Status: failed\n\n" <> result.summary <> "\n\nSession: " <> session
status_text session result SessionStatus.success opened_pr = done_body session result opened_pr
status_text session result SessionStatus.partial opened_pr = done_body session result opened_pr

unfoldable pub final_status_body :
    Option String → String → SessionResult → Option ℕ → List String → String
unfolding cave_session_url joined
final_status_body cave task_id result opened_pr cited_memory =
    let body = status_text (cave_session_url cave task_id) result result.status opened_pr in
    if is_empty cited_memory
    then body
    else body
      <> "\n\nMemory used: "
      <> joined ", " (map (λ (id : String). "`" <> id <> "`") cited_memory)

-- The conversation that a task's status is shown on.
unfoldable pub surface_number : TaskKind → Option ℕ
surface_number (fix_issue n title body) = some n
surface_number (respond_to_mention n body) = some n
surface_number (command_reply n body) = some n
surface_number (address_review_comment n body hunk) = some n
surface_number (review_pull_request n title reason) = some n
surface_number (cancel_reviews n) = some n
surface_number (garden_run report_issue) = report_issue

unfoldable pub pr_title : SessionResult → Task → String
unfolding surface_number
pr_title result task =
    result.summary
    <> " (#"
    <> decimal (elim (surface_number task.kind) [ none ↦ 0 | some n ↦ n ])
    <> " via Coven)"

unfoldable pub decline_body : Task → String
decline_body task =
    "Status: declined\n\nMaintainer commands need write access to " <> task.repo_owner <> "/"
    <> task.repo_name <> "."

unfoldable pub task_title : TaskKind → String
task_title (fix_issue n title body) = "Fix issue #" <> decimal n <> ": " <> title
task_title (address_review_comment n body hunk) = "Address review on PR #" <> decimal n
task_title (respond_to_mention n body) = "Respond on issue #" <> decimal n
task_title (review_pull_request n title reason) = "Review PR #" <> decimal n <> ": " <> title
task_title (garden_run report_issue) = "Run branch gardener"
task_title (command_reply n body) = "Reply on #" <> decimal n
task_title (cancel_reviews n) = "Cancel queued reviews on PR #" <> decimal n

pub record ResolvedTargets : Type 0 where
  pub default_branch : String
  pub base_ref : String
  pub head_sha : String
  pub head_is_fork : Bool

module _ {W : Type 0} (hub : Hub W) where
  unfoldable pub commander_below_write : W → Task → Reply Bool × W
  commander_below_write w task = elim task.commander [
    | none ↦ (got false, w)
    | some commander ↦
        let (answer, w1) = hub.get_collaborator_permission w commander in
        elim answer [
          | lost e ↦ (lost e, w1)
          | got p ↦ (got (not ((p == "admin") || (p == "maintain") || (p == "write"))), w1)
        ]
  ]

  -- The refs of a pull request's head, for the tasks on one.
  abbrev pull_targets : W → String → ℕ → Reply ResolvedTargets × W
  pull_targets w default_branch pr_number =
      let (answer, w1) = hub.get_pull_request_refs w pr_number in
      elim answer [
        | lost e ↦ (lost e, w1)
        | got refs ↦ (
          got (record {
            default_branch = default_branch;
            base_ref = refs.base_ref;
            head_sha = refs.head_sha;
            head_is_fork = refs.head_is_fork;
          }),
          w1,
        )
      ]

  -- The tip of the default branch, for every other task.
  abbrev branch_targets : W → String → Reply ResolvedTargets × W
  branch_targets w default_branch =
      let (answer, w1) = hub.get_branch_sha w default_branch in
      elim answer [
        | lost e ↦ (lost e, w1)
        | got sha ↦ (
          got (record {
            default_branch = default_branch;
            base_ref = default_branch;
            head_sha = sha;
            head_is_fork = false;
          }),
          w1,
        )
      ]

  abbrev targets_of : W → String → TaskKind → Reply ResolvedTargets × W
  targets_of w branch (address_review_comment n body hunk) = pull_targets w branch n
  targets_of w branch (review_pull_request n title reason) = pull_targets w branch n
  targets_of w branch (fix_issue n title body) = branch_targets w branch
  targets_of w branch (respond_to_mention n body) = branch_targets w branch
  targets_of w branch (command_reply n body) = branch_targets w branch
  targets_of w branch (cancel_reviews n) = branch_targets w branch
  targets_of w branch (garden_run report_issue) = branch_targets w branch

  unfoldable pub resolve_targets : W → Task → Reply ResolvedTargets × W
  resolve_targets w task =
      let (found, w1) = hub.get_repo w in
      elim found [ lost e ↦ (lost e, w1) | got branch ↦ targets_of w1 branch task.kind ]

-- The worker shows a task's status on the conversation that the store lists the task under.
surface_number-surface_of : (kind : TaskKind) → surface_number kind ≡ (surface_of kind).0
unfolding surface_number surface_of
surface_number-surface_of (fix_issue n title body) = refl
surface_number-surface_of (respond_to_mention n body) = refl
surface_number-surface_of (command_reply n body) = refl
surface_number-surface_of (address_review_comment n body hunk) = refl
surface_number-surface_of (review_pull_request n title reason) = refl
surface_number-surface_of (cancel_reviews n) = refl
surface_number-surface_of (garden_run report_issue) = refl
