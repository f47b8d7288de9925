-- ===== src/Webhook/Replies.antt =====
-- What a maintainer's command becomes: `command_task`, `verb`, `status_label` and `familiar_names`
-- of crates/webhook/src/routes.rs. The id that `uuid` makes for a task is an argument.
use coven_github.Store.Cave.{cave_list}
use coven_github.GitHub.{
  garden_run, cancel_reviews, address_review_comment, command_reply, fix_issue, review_pull_request,
  TaskListStatus, TaskListItem, TaskKind, Task,
}
use coven_github.Store.Schema.{err, ok, Result, KindJson, Db}
use coven_github.Config.{FamiliarConfig, Config}
use coven_github.Webhook.Commands.{command_list, Command}
use coven_github.Base.{
  ℕ, Bool, List, Option, String, [], decimal, false, if◌then◌else◌, is_empty, map, nat_Eq, none,
  select_where, some, sort_by, text_Eq, text_ltb, true, ◌&&◌, ◌<>◌, ◌==◌, ◌∷◌,
}

unfoldable pub verb : Command → String
verb Command.review = "review"
verb (Command.fix args) = "fix"
verb Command.deepen = "deepen"
verb Command.retry = "retry"
verb Command.cancel = "cancel"
verb Command.garden = "garden"
verb (Command.remember note) = "remember"
verb (Command.forget note) = "forget"
verb Command.status = "status"
verb (Command.unknown v) = "unknown"

unfoldable pub status_label : TaskListStatus → String
status_label TaskListStatus.queued = "queued"
status_label TaskListStatus.running = "running"
status_label TaskListStatus.review = "awaiting review"
status_label TaskListStatus.done = "done"
status_label TaskListStatus.failed = "failed"
status_label TaskListStatus.superseded = "superseded"

-- A map with two entries of one id keeps the later, which the reversed list puts first.
abbrev pub familiar_names_into :
    List FamiliarConfig → List (String × String) → List (String × String)
familiar_names_into [] names = names
familiar_names_into (f ∷ familiars) names =
    familiar_names_into familiars ((f.id, f.display_name) ∷ names)

unfoldable pub familiar_names : Config → List (String × String)
familiar_names cfg = familiar_names_into cfg.familiars []

-- The issue or pull request that a command arrived on.
pub record CommandSurface : Type 0 where
  pub installation_id : ℕ
  pub repo_owner : String
  pub repo_name : String
  pub number : ℕ
  pub title : String
  pub issue_body : String
  pub comment_body : String
  pub on_pull_request : Bool
  pub commander : String

unfoldable pub make : String → FamiliarConfig → CommandSurface → TaskKind → Option String → Task
make id familiar s kind commander = record {
  id = id;
  installation_id = s.installation_id;
  repo_owner = s.repo_owner;
  repo_name = s.repo_name;
  kind = kind;
  familiar_id = familiar.id;
  commander = commander;
}

abbrev pub join_lines : List String → String
join_lines [] = ""
join_lines (x ∷ []) = x
join_lines (x ∷ xs) = x <> "\n" <> join_lines xs

abbrev pub unmatched : String → String
unmatched name =
    "`" <> name <> "` needs a pull request; this is an issue. Commands here: " <> command_list
    <> "."

abbrev pub not_stored : String
not_stored =
    "Noted, but memory persistence is not wired up yet — it lands with the hosted memory governance contract (#6). Nothing was stored or deleted."

abbrev pub tracked_here : String → ℕ → TaskListItem → Bool
tracked_here repo n t = t.repo == repo && elim t.issue_number [ none ↦ false | some m ↦ m == n ]

abbrev pub items_or_none : Result (List TaskListItem) → List TaskListItem
items_or_none (ok items) = items
items_or_none (err e) = []

-- The reply to `status`: the lines of the tasks on this surface, or that there are none.
unfoldable pub status_body : String → ℕ → List TaskListItem → String
unfolding status_label
status_body repo n items =
    let lines =
      map (λ (t : TaskListItem). "- " <> t.issue_title <> " — " <> status_label t.status)
        (select_where (tracked_here repo n) items) in
    if is_empty lines
    then "No tracked tasks for " <> repo <> "#" <> decimal n <> "."
    else "Tasks for " <> repo <> "#" <> decimal n <> ":\n" <> join_lines (sort_by text_ltb lines)

abbrev pub on_pull : CommandSurface → Command → TaskKind
on_pull s c = review_pull_request s.number s.title ("command:" <> verb c)

abbrev pub on_issue : CommandSurface → TaskKind
on_issue s = fix_issue s.number s.title s.issue_body

abbrev pub reply : CommandSurface → String → TaskKind
reply s body = command_reply s.number body

-- The command's kind of work, and whether the task carries its commander.
unfoldable pub command_kind : List TaskListItem → Command → CommandSurface → TaskKind × Bool
unfolding verb status_body command_list
command_kind items Command.review s =
    if s.on_pull_request
    then (on_pull s Command.review, true)
    else (reply s (unmatched (verb Command.review)), false)
command_kind items Command.deepen s =
    if s.on_pull_request
    then (on_pull s Command.deepen, true)
    else (reply s (unmatched (verb Command.deepen)), false)
command_kind items Command.retry s =
    if s.on_pull_request then (on_pull s Command.retry, true) else (on_issue s, true)
command_kind items (Command.fix args) s =
    if s.on_pull_request
    then (address_review_comment s.number s.comment_body none, true)
    else (on_issue s, true)
command_kind items Command.cancel s =
    if s.on_pull_request
    then (cancel_reviews s.number, true)
    else (reply s "`cancel` currently applies to queued pull-request reviews only.", false)
command_kind items Command.garden s = (garden_run (some s.number), true)
command_kind items (Command.remember note) s = (reply s not_stored, true)
command_kind items (Command.forget note) s = (reply s not_stored, true)
command_kind items Command.status s =
    (reply s (status_body (s.repo_owner <> "/" <> s.repo_name) s.number items), false)
command_kind items (Command.unknown v) s = (
  reply s ("I don't recognize `" <> v <> "`. Supported commands: " <> command_list <> "."),
  false,
)

module _ (json : KindJson) where
  unfoldable pub command_task :
      Config → Db → String → FamiliarConfig → Command → CommandSurface → Task
  unfolding command_kind make cave_list familiar_names
  command_task cfg db id familiar c s =
      let items = items_or_none (cave_list json db (familiar_names cfg) none) in
      let (kind, gated) = command_kind items c s in
      make id familiar s kind (if gated then some s.commander else none)
