-- ===== src/Store/Cave.antt =====
-- The Cave's view of the tasks: `cave_list` and `project_status` of crates/store/src/lib.rs.
pub mod Scope
use coven_github.Store.Memory.{repo_visible, in_installation, ApiScope}
use coven_github.Base.{
  ℕ, Bool, List, Option, String, [], decimal, false, if◌then◌else◌, ltb, nat_Eq, none, not,
  select_where, some, sort_by, text_Eq, text_ltb, ◌&&◌, ◌<>◌, ◌==◌, ◌||◌, ◌∷◌,
}
use coven_github.GitHub.{TaskListItem, TaskListStatus, TaskKind, surface_of}
use coven_github.Store.Schema.{
  Db, KindJson, Result, TaskRow, TaskState, err, is_none, ok, unreadable_kind,
}

abbrev pub names_of : List (String × String) → String → Option String
names_of [] id = none
names_of ((j, name) ∷ names) id = if j == id then some name else names_of names id

-- result_status == Some("needs_input") || pr_number.is_some()
abbrev pub needs_human : Option String → Option ℕ → Bool
needs_human none pr = not (is_none pr)
needs_human (some s) pr = s == "needs_input" || not (is_none pr)

unfoldable pub project_status : TaskState → Option String → Option ℕ → TaskListStatus
project_status TaskState.queued result pr = TaskListStatus.queued
project_status TaskState.running result pr = TaskListStatus.running
project_status TaskState.superseded result pr = TaskListStatus.superseded
project_status TaskState.failed result pr = TaskListStatus.failed
project_status TaskState.completed result pr =
    if needs_human result pr then TaskListStatus.review else TaskListStatus.done

abbrev pub or_id : Option String → String → String
or_id none id = id
or_id (some name) id = name

abbrev pub pr_link : String → Option ℕ → Option String
pr_link repo none = none
pr_link repo (some n) = some ("https://github.com/" <> repo <> "/pull/" <> decimal n)

unfoldable pub cave_item : List (String × String) → TaskRow → TaskKind → TaskListItem
unfolding project_status
cave_item names r kind =
    let (issue_number, issue_title) = surface_of kind in
    record {
      id = r.id;
      repo = r.repo;
      issue_number = issue_number;
      issue_title = issue_title;
      branch = r.branch;
      pr_number = r.pr_number;
      pr_url = pr_link r.repo r.pr_number;
      status = project_status r.state r.result_status r.pr_number;
      familiar_id = r.familiar_id;
      familiar_name = or_id (names_of names r.familiar_id) r.familiar_id;
      session_id = some r.id;
      updated_at = r.updated_at;
      check_run_url = r.check_run_url;
    }

-- json_extract(kind, '$.kind') <> 'command_reply', which is not true of NULL
abbrev pub is_work : Option String → Bool
is_work none = false
is_work (some tag) = not (tag == "command_reply")

-- ORDER BY updated_at DESC, id
unfoldable pub newer : TaskRow → TaskRow → Bool
newer a b = ltb b.updated_at a.updated_at || (a.updated_at == b.updated_at && text_ltb a.id b.id)

module _ (json : KindJson) where
  unfoldable pub cave_rows : Db → Option ApiScope → List TaskRow
  unfolding newer
  cave_rows db scope = sort_by newer (
      select_where
        (λ (r : TaskRow). is_work (json.kind_tag r.kind) && in_installation scope r.installation_id)
        db.tasks)

  -- The loop over the rows: a row outside the scope's repositories is passed over, and a kind that
  -- does not parse ends the list with an error.
  unfoldable pub cave_items :
      List (String × String) → Option ApiScope → List TaskRow → Result (List TaskListItem)
  cave_items names scope [] = ok []
  cave_items names scope (r ∷ rows) =
      let rest = cave_items names scope rows in
      if repo_visible scope r.repo
      then elim (json.from_str r.kind) [
        | none ↦ err unreadable_kind
        | some kind ↦ elim rest [ err e ↦ err e | ok items ↦ ok (cave_item names r kind ∷ items) ]
      ]
      else rest

  unfoldable pub cave_list :
      Db → List (String × String) → Option ApiScope → Result (List TaskListItem)
  unfolding cave_rows cave_items
  cave_list db names scope = cave_items names scope (cave_rows db scope)
