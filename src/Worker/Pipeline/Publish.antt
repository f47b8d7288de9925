-- ===== src/Worker/Pipeline/Publish.antt =====
-- A session and what it publishes: `run_and_publish` and `open_draft_pr` of crates/worker/src/lib.rs.
-- The disk and serde_json are parameters: the errors of creating the workspace and of writing the
-- brief, and the brief's text. `memory` is the memory policy of the configuration, `workspace` the
-- workspace's path as the runtime sees it.
use coven_github.Worker.Pipeline.Governance.{deepened, memory_policy_for, audit_memory}
use coven_github.Worker.Pipeline.{repo_of, say_if}
use coven_github.Worker.Brief.{ReviewContext, SessionBrief, build}
use coven_github.Worker.Surface.{ResolvedTargets, surface_number, starting_comment, pr_title}
use coven_github.Worker.Redact.{redact, contains_live_token}
use coven_github.Worker.Redact.Report.{sanitize_result}
use coven_github.Worker.Memory.{MemoryPolicy}
use coven_github.Worker.Session.{SessionResult}
use coven_github.Worker.Session.Outcome.{Published, StaleRefs, disposition}
use coven_github.Worker.Session.Retries.{
  Fallible, value, error, run_session, LaunchOutcome, ResultFile,
}
use coven_github.Worker.Hub.{Hub, TokenRole, upsert, got, lost, Reply}
use coven_github.GitHub.{Task, TaskKind, review_pull_request}
use coven_github.Config.{FamiliarConfig, Config}
use coven_github.Config.Review.{audit_instruction_for}
use coven_github.Config.Memory.{MemoryConfig}
use coven_github.Store.Schema.{Db}
use coven_github.Base.{
  ℕ, List, String, Option, Bool, [], if◌then◌else◌, nat_Eq, none, not, some, text_Eq, ◌<>◌, ◌==◌,
  ◌∷◌,
}

-- The machine that a session runs on.
pub record Machine : Type 0 where
  pub create_dir_all : Option String
  pub to_string_pretty : SessionBrief → Fallible String
  pub write : String → Option String
  pub in_container : Bool
  pub timeout_secs : ℕ
  pub max_retries : ℕ
  pub launches : ℕ → LaunchOutcome
  pub files : ℕ → ResultFile

module _ {W : Type 0} (hub : Hub W) (now : ℕ) (cfg : Config) (memory : MemoryConfig)
    (cave : Option String) (machine : Machine) (workspace : String) (familiar : FamiliarConfig)
    (t : Task) (token : String) (targets : ResolvedTargets) where
  -- The context of a review, for the tasks that review a pull request.
  unfoldable pub review_context : W → TaskKind → Reply (Option ReviewContext) × W
  unfolding audit_instruction_for deepened
  review_context w (review_pull_request n title reason) =
      let (listed, w1) = hub.get_pull_request_files w n in
      elim listed [
        | lost e ↦ (lost e, w1)
        | got files ↦ (
          got (
              some (record {
                files = files;
                audit_instruction = deepened (audit_instruction_for cfg.review (repo_of t)) reason;
              })),
          w1,
        )
      ]
  review_context w _ = (got none, w)

  -- The head of a reviewed pull request, where it is no longer the one that was reviewed.
  unfoldable pub head_moved : W → TaskKind → Reply (Option StaleRefs) × W
  head_moved w (review_pull_request n title reason) =
      let (answer, w1) = hub.get_pull_request_refs w n in
      elim answer [
        | lost e ↦ (lost e, w1)
        | got refs ↦ if refs.head_sha == targets.head_sha then (got none, w1) else (
          got (some (record { reviewed_sha = targets.head_sha; current_sha = refs.head_sha })),
          w1,
        )
      ]
  head_moved w _ = (got none, w)

  unfoldable pub open_draft_pr : W → String → SessionResult → String → Option ℕ × W
  unfolding pr_title redact upsert surface_number
  open_draft_pr w publisher result branch =
      let (opened, w1) =
        hub.open_pull_request w branch targets.base_ref (pr_title result t) result.pr_body in
      elim opened [
        | got n ↦ (some n, w1)
        | lost e ↦ (
          none,
          say_if hub familiar t w1 (surface_number t.kind) (
              redact
                ("Status: failed\n\nI pushed `" <> branch
                  <> "` but could not open the PR automatically: " <> e
                  <> ". Open the branch manually or check the App's pull-request permission.")
                (publisher ∷ [])),
        )
      ]

  -- The publication token is minted only for a result that opens a pull request.
  unfoldable pub publish_branch : W → SessionResult → String → Option ℕ × W
  unfolding open_draft_pr redact upsert surface_number
  publish_branch w result branch =
      let (minted, w1) = hub.mint w TokenRole.publication in
      elim minted [
        | got publisher ↦ open_draft_pr w1 publisher result branch
        | lost e ↦ (
          none,
          say_if hub familiar t w1 (surface_number t.kind) (
              redact
                ("Status: failed\n\nI pushed `" <> branch
                  <> "` but could not obtain publication credentials to open the PR: " <> e)
                (token ∷ [])),
        )
      ]

  unfoldable pub publish_result : W → SessionResult → Option ℕ × W
  unfolding disposition publish_branch
  publish_result w result =
      if not (disposition result).open_pr
      then (none, w)
      else elim result.branch [ none ↦ (none, w) | some branch ↦ publish_branch w result branch ]

  abbrev files_of : Option ReviewContext → List String
  files_of none = []
  files_of (some r) = r.files

  -- From the session's sanitized result on.
  unfoldable pub publish_session :
      Db
      → W
      → Option ReviewContext
      → Option MemoryPolicy
      → SessionResult
      → Fallible Published × Db × W
  unfolding audit_memory head_moved publish_result
  publish_session db w review policy result =
      let (cited_memory, db1) = audit_memory now db t policy result.memory_used in
      let (moved, w1) = head_moved w t.kind in
      elim moved [
        | lost e ↦ (error e, db1, w1)
        | got stale ↦ elim stale [
          | some refs ↦ (
            value (record {
              result = result;
              opened_pr = none;
              changed_files = [];
              stale = some refs;
              cited_memory = cited_memory;
            }),
            db1,
            w1,
          )
          | none ↦
              let (opened_pr, w2) = publish_result w1 result in
              (
                value (record {
                  result = result;
                  opened_pr = opened_pr;
                  changed_files = files_of review;
                  stale = none;
                  cited_memory = cited_memory;
                }),
                db1,
                w2,
              )
        ]
      ]

  -- The session, once the brief is written.
  unfoldable pub run_briefed :
      Db → W → ℕ → Option ReviewContext → Option MemoryPolicy → Fallible Published × Db × W
  unfolding upsert surface_number starting_comment run_session sanitize_result publish_session
  run_briefed db w check_id review policy =
      let w1 =
        say_if hub familiar t w (surface_number t.kind) (starting_comment cave familiar t.id) in
      let w2 = (hub.update_check w1 check_id "Running" "Familiar is working on the task.").1 in
      let (minted, w3) = hub.mint w2 TokenRole.agent_git in
      elim minted [
        | lost e ↦ (error e, db, w3)
        | got git_token ↦
            elim (run_session machine.in_container machine.timeout_secs machine.launches
              machine.files machine.max_retries) [
                | error e ↦ (error e, db, w3)
                | value result ↦
                    publish_session db w3 review policy
                      (sanitize_result (token ∷ git_token ∷ []) result)
              ]
      ]

  -- The text of the brief, unless it holds the token, and its write.
  unfoldable pub write_brief : SessionBrief → Option String
  unfolding contains_live_token
  write_brief brief = elim (machine.to_string_pretty brief) [
    | error e ↦ some e
    | value text ↦
        if contains_live_token text (token ∷ [])
        then some "session brief contained a live token; refusing to write it"
        else machine.write text
  ]

  -- `none` where the code panics.
  unfoldable pub run_and_publish : Db → W → ℕ → Option (Fallible Published × Db × W)
  unfolding review_context memory_policy_for build write_brief run_briefed
  run_and_publish db w check_id = elim machine.create_dir_all [
    | some e ↦ some (error e, db, w)
    | none ↦
        let (asked, w1) = review_context w t.kind in
        elim asked [
          | lost e ↦ some (error e, db, w1)
          | got review ↦
              let policy = memory_policy_for memory db t targets.head_is_fork in
              elim (build t familiar workspace targets.default_branch review policy) [
                | none ↦ none
                | some brief ↦ elim (write_brief brief) [
                  | some e ↦ some (error e, db, w1)
                  | none ↦ some (run_briefed db w1 check_id review policy)
                ]
              ]
        ]
  ]
