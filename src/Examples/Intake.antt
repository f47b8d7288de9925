-- ===== src/Examples/Intake.antt =====
-- The theorems on the webhook endpoint, applied (crates/webhook/src/routes.rs).
use coven_github.Webhook.Replies.{make, command_kind, command_task}
use coven_github.Webhook.Commands.{
  handle_of, parse_mention, command_in, command_of, continues, is_alphanumeric, needle_of,
  strip_command_mention,
}
use coven_github.Store.Queue.{next_row, capped, claimed, claim_row, claim_next}
use coven_github.Config.Scopes.{allowed_familiars, narrowed, override_of, scope_for}
use coven_github.Store.Schema.{empty}
use coven_github.Store.Deliveries.{
  tombstone_older, task_row, delivery_row, supersede_key, record_delivery_sync, record_delivery,
}
use coven_github.Webhook.Routing.{
  command_for, first_command, next_word, slash_garden_command, parse_command, comment_task,
  event_to_task,
}
use coven_github.Examples.Plans.{cfg}
use coven_github.Store.Runs.{step, run}
use coven_github.Webhook.Intake.Handler.{handle_webhook}
use coven_github.Examples.{tables, sample_json, tables-IsValid}
use coven_github.Webhook.Intake.Redelivery.{handle_webhook-duplicate}
use coven_github.Webhook.Intake.Answers.{handle_webhook-answered}
use coven_github.Webhook.Intake.Faults.{AllUp, is_uninstall}
use coven_github.Store.Deliveries.{has_task, seen}
use coven_github.Webhook.Intake.Validity.{handle_webhook-IsValid}
use coven_github.Webhook.Routing.Authority.{event_to_task-Admitted}
use coven_github.Webhook.Payload.{event_of, parse_event, WebhookPayload}
use coven_github.GitHub.{fix_issue, Task}
use coven_github.Store.Validity.{IsValid}
use coven_github.GitHub.Events.{GitHubEvent}
use coven_github.Webhook.Intake.{verify_signature, admit, Wire, Headers, Arrival}
use coven_github.Webhook.Routing.Guards.{Admitted}
use coven_github.Base.{
  ℕ, Bool, String, [], earlier, false, first_by, if◌then◌else◌, inr, nat_Eq, none, refl,
  select_where, some, split_where, strip_prefix, strip_suffix_text, text_Eq, to_ascii_lowercase,
  trim, trim_end_matches, trim_end_where, trim_start, true, update_where, ◌==◌, ◌∷◌, ◌≡◌, ◌⊎◌,
}

abbrev pub no_unicode : ℕ → Bool
no_unicode c = false

abbrev comment : String → WebhookPayload
comment body = record {
  action = some "created";
  installation = some (record { id = 7; account = none });
  repository = some (record { name = "web"; owner = record { login = "acme" } });
  issue =
      some (record { number = 3; title = "Login fails"; body = none; has_pull_request = false });
  comment = some (record { body = body; user = record { login = "ann" } });
  review = none;
  label = none;
  assignee = none;
  pull_request = none;
  git_ref = none;
  before = none;
  after = none;
  deleted = false;
  forced = false;
  commits = [];
  sender = none;
  marketplace_purchase = none;
}

-- A library that finds every signature valid, and reads this comment in any body.
abbrev wire : Wire
wire = record {
  hex_decode = λ s. some (0 ∷ []);
  hmac_verify = λ secret payload tag. true;
  parse_payload = λ body. some (comment "@coven-cody fix the login");
  payload_hash = λ body. "00";
  fails = λ call. false;
}

abbrev headers : String → Headers
headers id name =
    if name == "x-hub-signature-256"
    then some "sha256=00"
    else if name == "x-github-event"
    then some "issue_comment"
    else if name == "x-github-delivery"
    then some id
    else none

abbrev arrival : String → Arrival
arrival id = record {
  event_type = "issue_comment";
  delivery_id = id;
  payload = comment "@coven-cody fix the login";
  body = [];
}

admitted : admit wire cfg.webhook_secret (headers "d9") [] ≡ inr (arrival "d9")
unfolding admit verify_signature trim strip_prefix trim_start trim_end_where
admitted = refl

readmitted : admit wire cfg.webhook_secret (headers "d1") [] ≡ inr (arrival "d1")
unfolding admit verify_signature trim strip_prefix trim_start trim_end_where
readmitted = refl

handle_webhook-IsValid_example :
    IsValid (handle_webhook sample_json wire no_unicode cfg 20 "t9" tables (headers "d9") []).db
handle_webhook-IsValid_example =
    handle_webhook-IsValid sample_json wire no_unicode cfg 20 "t9" tables (headers "d9") []
      tables-IsValid

handle_webhook-duplicate_example :
    let h = handle_webhook sample_json wire no_unicode cfg 20 "t9" tables (headers "d1") [] in
    (h.db ≡ record tables { accounts = h.db.accounts })
    × (AllUp wire → h.response.status ≡ 200)
    × (h.woken ≡ false)
unfolding run step record_delivery record_delivery_sync supersede_key claim_next claim_row claimed
    capped next_row first_by earlier update_where delivery_row task_row tombstone_older select_where
handle_webhook-duplicate_example =
    handle_webhook-duplicate sample_json wire no_unicode cfg 20 "t9" tables (headers "d1") []
      (arrival "d1") readmitted refl

handle_webhook-answered_example :
    let h = handle_webhook sample_json wire no_unicode cfg 20 "t9" empty (headers "d9") [] in
    (((h.response.status ≡ 200) × (is_uninstall (arrival "d9") ≡ false → seen h.db "d9" ≡ true))
      ⊎ ((h.response.status ≡ 500)
          × (h.woken ≡ false)
          × (h.db ≡ record empty { accounts = h.db.accounts })))
    × (AllUp wire × (has_task "t9" empty.tasks ≡ false) → h.response.status ≡ 200)
handle_webhook-answered_example =
    handle_webhook-answered sample_json wire no_unicode cfg 20 "t9" empty (headers "d9") []
      (arrival "d9") admitted

abbrev event : GitHubEvent
event = parse_event "issue_comment" (comment "@coven-cody fix the login")

abbrev login_task : Task
login_task = record {
  id = "t9";
  installation_id = 7;
  repo_owner = "acme";
  repo_name = "web";
  kind = fix_issue 3 "Login fails" "";
  familiar_id = "cody";
  commander = some "ann";
}

routed : event_to_task sample_json no_unicode cfg empty "t9" event ≡ some login_task
unfolding parse_event event_of event_to_task comment_task scope_for override_of narrowed
    allowed_familiars select_where parse_command slash_garden_command next_word split_where
    first_command command_for parse_mention handle_of trim_end_matches strip_suffix_text trim_start
    strip_command_mention needle_of strip_prefix continues is_alphanumeric command_in command_of
    trim trim_end_where to_ascii_lowercase command_task command_kind make
routed = refl

event_to_task-Admitted_example : Admitted cfg "t9" event login_task
event_to_task-Admitted_example =
    event_to_task-Admitted sample_json no_unicode cfg empty "t9" event login_task routed
