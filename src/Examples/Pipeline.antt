-- ===== src/Examples/Pipeline.antt =====
-- The theorems on a run's outcome, applied (crates/worker/src/lib.rs).
use coven_github.Examples.Session.{result}
use coven_github.Worker.Pipeline.Total.{run_checked-Settled}
use coven_github.Worker.Pipeline.Publish.{Machine}
use coven_github.Worker.Pipeline.Execute.{run_checked}
use coven_github.Worker.Brief.{trigger_of}
use coven_github.Worker.Session.Outcome.{Published}
use coven_github.Worker.Hub.{upsert, marker}
use coven_github.Worker.Surface.{decline_body, ResolvedTargets}
use coven_github.Config.Memory.{MemoryConfig}
use coven_github.Store.Schema.{Db}
use coven_github.Worker.Session.Retries.{exited, written}
use coven_github.Examples.{tables}
use coven_github.Examples.Plans.{cfg, cody}
use coven_github.GitHub.{Task, cancel_reviews, review_pull_request}
use coven_github.Worker.Session.Retries.{value}
use coven_github.Worker.Pipeline.Settled.{Ended, IsCompleted, others, run_cancel_reviews-below}
use coven_github.Worker.Pipeline.Commands.{run_cancel_reviews}
use coven_github.Worker.Hub.{Hub, got, lost}
use coven_github.Base.{
  ℕ, List, String, All, [], none, refl, some, true, ◌∷◌, ◌≡◌, false, nat_Eq, ne_of_==, text_Eq,
}

-- The Check Runs that were completed, with their titles, newest first; every comment fails.
abbrev Checks : Type 0
Checks = List (ℕ × String)

abbrev checks_hub : Hub Checks
checks_hub = record {
  mint = λ w role. (got "token", w);
  get_repo = λ w. (got "main", w);
  list_branches = λ w. (got [], w);
  compare_ahead_behind = λ w base head. (lost "unused", w);
  list_pulls_by_head = λ w branch. (got [], w);
  get_branch_sha = λ w branch. (lost "unused", w);
  delete_ref = λ w branch. (lost "unused", w);
  open_pull_request = λ w head base title body. (got 9, w);
  add_labels_to_issue = λ w n label. (got true, w);
  get_collaborator_permission = λ w username. (got "read", w);
  get_pull_request_refs = λ w n. (lost "unused", w);
  get_pull_request_files = λ w n. (got [], w);
  create_check = λ w head_sha name details_url. (got 1, w);
  update_check = λ w n title summary. (got true, w);
  complete_check = λ w n conclusion title summary. (got true, (n, title) ∷ w);
  submit_review = λ w n verdict body. (got true, w);
  list_comments = λ w n. (lost "unavailable", w);
  update_comment = λ w n body. (lost "unavailable", w);
  post_comment = λ w n body. (lost "unavailable", w);
}

abbrev review_task : Task
review_task = record {
  id = "t1";
  installation_id = 7;
  repo_owner = "acme";
  repo_name = "api";
  kind = review_pull_request 5 "Fix" "opened";
  familiar_id = "cody";
  commander = none;
}

abbrev cancel_task : Task
cancel_task = record review_task {
  id = "t9";
  kind = cancel_reviews 5;
  commander = some "passer-by";
}

-- A session that succeeds at once, on a disk that works.
abbrev machine : Machine
machine = record {
  create_dir_all = none;
  to_string_pretty = λ brief. value "{}";
  write = λ text. none;
  in_container = false;
  timeout_secs = 600;
  max_retries = 2;
  launches = λ n. exited (some 0);
  files = λ n. written result;
}

abbrev no_memory : MemoryConfig
no_memory = record { enabled = false; approval_required = false; retention_days = none; repos = [] }

abbrev targets : ResolvedTargets
targets = record {
  default_branch = "main";
  base_ref = "main";
  head_sha = "abc";
  head_is_fork = false;
}

run_checked-Settled_example :
    (after : Db × Checks) × (run_checked checks_hub 30 cfg no_memory none machine "/srv/t1" false
        review_task cody tables [] "token" targets 4
      ≡ some after)
    × All (Ended "t1") after.0.tasks
    × IsCompleted checks_hub 4 after.1
unfolding trigger_of
run_checked-Settled_example =
    run_checked-Settled checks_hub 30 cfg no_memory none machine "/srv/t1" false review_task cody
      "token" targets tables [] 4 (λ e. cc)

run_cancel_reviews-below_example :
    let r = run_cancel_reviews checks_hub 30 cody cancel_task tables [] 5 in
    (others "t9" r.db.tasks ≡ others "t9" tables.tasks)
    × (r.world
        ≡ (upsert checks_hub [] 5 (marker "cody" "acme" "api" 5) (decline_body cancel_task)).1)
run_cancel_reviews-below_example =
    run_cancel_reviews-below checks_hub 30 cody cancel_task tables [] 5 "passer-by" "read" "token"
      refl refl refl (ne_of_== "read" "admin" refl) (ne_of_== "read" "maintain" refl)
      (ne_of_== "read" "write" refl)

-- An outcome that opened a pull request.
abbrev published : Published
published = record {
  result = result;
  opened_pr = some 3;
  changed_files = [];
  stale = none;
  cited_memory = [];
}
