-- ===== src/Worker/Pipeline/Execute.antt =====
-- A task from its claim to its end: `execute_task_with_minter` of crates/worker/src/lib.rs. `leftover`
-- tells whether the workspace is still on the disk after the attempt to remove it.
use coven_github.Worker.Pipeline.{Stopped, repo_of}
use coven_github.Worker.Pipeline.Commands.{run_command_reply, run_cancel_reviews}
use coven_github.Worker.Pipeline.Prepare.{
  Prepared, ready, declined, adapter_completed, panicked, prepare, decline, fail_before_check,
}
use coven_github.Worker.Pipeline.Publish.{Machine, run_and_publish}
use coven_github.Worker.Pipeline.Conclude.{conclude}
use coven_github.Worker.Surface.{ResolvedTargets}
use coven_github.Worker.Hub.{Hub}
use coven_github.GitHub.{Task, TaskKind, command_reply, cancel_reviews}
use coven_github.Config.{FamiliarConfig, Config}
use coven_github.Config.Memory.{MemoryConfig}
use coven_github.Store.Queue.{set_check_run_url}
use coven_github.Store.Audit.{record_api_read}
use coven_github.Store.Schema.{Db}
use coven_github.Base.{
  ℕ, String, Option, Bool, decimal, find, if◌then◌else◌, nat_Eq, none, some, text_Eq, ◌<>◌, ◌==◌,
}

unfoldable pub check_run_url : Task → ℕ → String
check_run_url t check_id = "https://github.com/" <> repo_of t <> "/runs/" <> decimal check_id

-- The audit of a private checkout that could not be removed.
unfoldable pub clean_up : ℕ → Db → Task → Bool → Db
unfolding record_api_read
clean_up now db t leftover =
    if leftover
    then record_api_read now db ("worker:" <> t.id) (repo_of t) "workspace_cleanup_failed" "error"
    else db

module _ {W : Type 0} (hub : Hub W) (now : ℕ) (cfg : Config) (memory : MemoryConfig)
    (cave : Option String) (machine : Machine) (workspace : String) (leftover : Bool)
    (t : Task) where
  -- After the Check Run is created; `none` where the code panics.
  unfoldable pub run_checked :
      FamiliarConfig → Db → W → String → ResolvedTargets → ℕ → Option (Db × W)
  unfolding set_check_run_url check_run_url run_and_publish clean_up conclude
  run_checked familiar db w token targets check_id =
      elim (run_and_publish hub now cfg memory cave machine workspace familiar t token targets
        (set_check_run_url now db t.id (check_run_url t check_id)) w check_id) [
          | none ↦ none
          | some (outcome, db1, w1) ↦ some (
              conclude hub now cfg cave familiar t (clean_up now db1 t leftover) w1 check_id token
                outcome)
        ]

  abbrev stopped_at : Option (Db × W) → Option (Stopped W)
  stopped_at none = none
  stopped_at (some (db, w)) = some (record { failed = none; db = db; world = w })

  abbrev after_prepare : FamiliarConfig → Prepared → Db → W → Option (Stopped W)
  after_prepare familiar (ready token targets check_id) db w =
      stopped_at (run_checked familiar db w token targets check_id)
  after_prepare familiar (declined token) db w = some (decline hub now cfg cave familiar t db w)
  after_prepare familiar adapter_completed db w =
      some (record { failed = none; db = db; world = w })
  after_prepare familiar (Prepared.failed e) db w =
      some (fail_before_check hub now cfg cave familiar t db w e)
  after_prepare familiar panicked db w = none

  abbrev execute_kind : FamiliarConfig → Db → W → TaskKind → Option (Stopped W)
  execute_kind familiar db w (command_reply n body) =
      some (run_command_reply hub now familiar t db w n body)
  execute_kind familiar db w (cancel_reviews n) =
      some (run_cancel_reviews hub now familiar t db w n)
  execute_kind familiar db w _ =
      let (prepared, db1, w1) = prepare hub now cfg cave familiar t db w in
      after_prepare familiar prepared db1 w1

  unfoldable pub execute_task : Db → W → Option (Stopped W)
  unfolding run_command_reply run_cancel_reviews prepare decline fail_before_check run_checked
  execute_task db w = elim (find (λ (f : FamiliarConfig). f.id == t.familiar_id) cfg.familiars) [
    | none ↦
        some (record { failed = some ("unknown familiar: " <> t.familiar_id); db = db; world = w })
    | some familiar ↦ execute_kind familiar db w t.kind
  ]
