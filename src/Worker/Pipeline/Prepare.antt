-- ===== src/Worker/Pipeline/Prepare.antt =====
-- The steps of `execute_task_with_minter` (crates/worker/src/lib.rs) up to the Check Run: the
-- permission gate, the supersession of older reviews, the gardener's run, the refs and the Check Run.
use coven_github.Worker.Pipeline.{terminal, review_key, Stopped, say_if}
use coven_github.Worker.Surface.{
  commander_below_write, decline_body, ResolvedTargets, resolve_targets, task_title,
  cave_session_url, surface_number,
}
use coven_github.Worker.GardenRun.{execute_garden_run}
use coven_github.Worker.Redact.{redact}
use coven_github.Worker.Hub.{Hub, TokenRole, upsert, got, lost}
use coven_github.GitHub.{Task, TaskKind, garden_run, review_pull_request}
use coven_github.Config.{FamiliarConfig, Config}
use coven_github.Store.Schema.{Db, TerminalState}
use coven_github.Store.Queue.{supersede_queued_except, finish}
use coven_github.Base.{ℕ, String, Option, [], if◌then◌else◌, none, some, ◌<>◌}

-- `failed` is an error before the Check Run, `panicked` the panic of the gardener's report.
pub data Prepared : Type 0 where
  ready : (token : String) (targets : ResolvedTargets) (check_id : ℕ) → Prepared
  declined : (token : String) → Prepared
  adapter_completed : Prepared
  failed : (message : String) → Prepared
  panicked : Prepared

-- A review on command displaces the older ones that wait; one that the code starts itself does so
-- when it is recorded.
unfoldable pub supersede_older : ℕ → Db → Task → Db
unfolding supersede_queued_except review_key
supersede_older now db t = elim t.commander [ none ↦ db | some _ ↦ displaced t.kind ]
  where
    displaced : TaskKind → Db
    displaced (review_pull_request n title reason) =
        (supersede_queued_except now db (review_key t n) t.id).1
    displaced _ = db

module _ {W : Type 0} (hub : Hub W) (now : ℕ) (cfg : Config) (cave : Option String)
    (familiar : FamiliarConfig) (t : Task) where
  abbrev pub check_name : String
  check_name = familiar.display_name <> " — " <> task_title t.kind

  -- The refs, and the Check Run on the head.
  unfoldable pub open_check : Db → W → String → Prepared × Db × W
  unfolding resolve_targets task_title cave_session_url
  open_check db w token =
      let (resolved, w1) = resolve_targets hub w t in
      elim resolved [
        | lost e ↦ (Prepared.failed e, db, w1)
        | got targets ↦
            let (made, w2) =
              hub.create_check w1 targets.head_sha check_name (some (cave_session_url cave t.id)) in
            elim made [
              | lost e ↦ (Prepared.failed e, db, w2)
              | got check_id ↦ (ready token targets check_id, db, w2)
            ]
      ]

  abbrev garden_prepared : Db → W → Option (Db × W) → Prepared × Db × W
  garden_prepared db w none = (panicked, db, w)
  garden_prepared db w (some (db1, w1)) = (adapter_completed, db1, w1)

  abbrev prepare_kind : Db → W → String → TaskKind → Prepared × Db × W
  prepare_kind db w token (garden_run report_issue) =
      garden_prepared db w (execute_garden_run hub token familiar t now cfg db w report_issue)
  prepare_kind db w token _ = open_check db w token

  unfoldable pub prepare : Db → W → Prepared × Db × W
  unfolding commander_below_write supersede_older execute_garden_run open_check
  prepare db w =
      let (minted, w1) = hub.mint w TokenRole.orchestration in
      elim minted [
        | lost e ↦ (Prepared.failed e, db, w1)
        | got token ↦
            let (gated, w2) = commander_below_write hub w1 t in
            elim gated [
              | lost e ↦ (Prepared.failed e, db, w2)
              | got below ↦
                  if below
                  then (declined token, db, w2)
                  else prepare_kind (supersede_older now db t) w2 token t.kind
            ]
      ]

  -- The arms of a run that goes no further.
  unfoldable pub decline : Db → W → Stopped W
  unfolding decline_body surface_number upsert finish
  decline db w = record {
    failed = none;
    db = finish now db t.id (
        terminal TerminalState.completed (some "declined — maintainer commands need write access")
          none);
    world = say_if hub familiar t w (surface_number t.kind) (decline_body t);
  }

  unfoldable pub fail_before_check : Db → W → String → Stopped W
  unfolding redact finish
  fail_before_check db w e = record {
    failed = some e;
    db = finish now db t.id (terminal TerminalState.failed none (some (redact e [])));
    world = w;
  }
