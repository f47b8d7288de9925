-- ===== src/Examples/Quota.antt =====
-- The theorem on concurrent handlers, applied (crates/webhook/src/routes.rs).
use coven_github.Webhook.Intake.Concurrent.{Turn, reads, writes, turns, turn, routing_for}
use coven_github.Webhook.Intake.Handler.{daily_cap, entitled_plan, lacks_plan, quota_reached}
use coven_github.Store.Billing.{plan_for_installation, tasks_created_since}
use coven_github.Store.Deliveries.{record_delivery, record_delivery_sync, task_row, tombstone_older}
use coven_github.Store.Schema.{Delivery, empty}
use coven_github.Config.{Config, effective_limits, limits_for}
use coven_github.GitHub.{Task, fix_issue}
use coven_github.Examples.{sample_json}
use coven_github.Examples.Plans.{cfg, entry}
use coven_github.Base.{ℕ, List, String, count_where, [], none, refl, some, ◌∷◌, ◌≡◌}

-- One task a day.
abbrev daily_cfg : Config
daily_cfg = record cfg {
  installations =
      record (entry 7 none) {
        limits = record { max_concurrent = none; max_tasks_per_day = some 1 };
      }
      ∷ [];
}

abbrev fix_task : String → Task
fix_task id = record {
  id = id;
  installation_id = 7;
  repo_owner = "acme";
  repo_name = "web";
  kind = fix_issue 3 "Login fails" "";
  familiar_id = "cody";
  commander = some "ann";
}

abbrev fix_delivery : String → Delivery
fix_delivery id = record {
  delivery_id = id;
  event = "issue_comment";
  action = some "created";
  installation_id = some 7;
  repo = some "acme/web";
  payload_hash = "00";
}

-- Two handlers read before either records.
abbrev both_read : List (ℕ × Turn)
both_read =
    (5, reads (fix_delivery "d1") (fix_task "t1"))
    ∷ (5, reads (fix_delivery "d2") (fix_task "t2"))
    ∷ (6, writes 0)
    ∷ (6, writes 0)
    ∷ []

-- Then both tasks are recorded, though the cap is one a day.
both_recorded :
    tasks_created_since
      (turns sample_json daily_cfg (record { db = empty; waiting = [] }) both_read).db
      7
      0
    ≡ 2
unfolding turns turn routing_for lacks_plan quota_reached daily_cap entitled_plan
    plan_for_installation effective_limits limits_for tasks_created_since count_where
    record_delivery record_delivery_sync task_row tombstone_older
both_recorded = refl
