-- ===== src/Store/Audit.antt =====
-- The audit trail: `record_api_read`, `api_audit_entries` and `audit_events` of
-- crates/store/src/lib.rs. Events of one time come in the order of the tables, which SQL leaves open.
pub mod Scope
use coven_github.Store.Cave.{or_id}
use coven_github.Store.Retention.{is_number}
use coven_github.Store.Memory.{in_installation, at_or, ApiScope}
use coven_github.Base.{
  ℕ, Bool, List, Option, String, [], contains, decimal, false, ltb, map, nat_Eq, none, not,
  select_where, some, sort_by, starts_with, take, text_Eq, true, ◌&&◌, ◌++◌, ◌<>◌, ◌==◌, ◌∷◌,
}
use coven_github.Store.Schema.{Db, AttemptRow, AuditRow, DeliveryRow, TaskRow, is_none}

pub record AuditEvent : Type 0 where
  pub at : ℕ
  pub task_id : Option String
  pub repo : Option String
  pub kind : String
  pub detail : Option String

unfoldable pub record_api_read : ℕ → Db → String → String → String → String → Db
record_api_read now db caller scope action result = record db {
  audit =
      record { at = now; caller = caller; scope = scope; action = action; result = result }
      ∷ db.audit;
}

-- ORDER BY id: the table is newest first.
unfoldable pub entries_of : List AuditRow → List (String × String × String × String)
entries_of [] = []
entries_of (a ∷ rows) = entries_of rows ++ (a.caller, a.scope, a.action, a.result) ∷ []

unfoldable pub api_audit_entries : Db → List (String × String × String × String)
unfolding entries_of
api_audit_entries db = entries_of db.audit

-- ?1 IS NULL OR installation_id = ?1, of a column that may be NULL
abbrev pub number_in_installation : Option ApiScope → Option ℕ → Bool
number_in_installation none i = true
number_in_installation (some s) i = is_number i s.installation_id

-- routing LIKE 'ignored:%', of the texts that `record_delivery` writes
abbrev pub is_ignored : Option ApiScope → DeliveryRow → Bool
is_ignored scope d =
    starts_with "ignored:" d.routing && number_in_installation scope d.installation_id

abbrev pub ignored_event : DeliveryRow → AuditEvent
ignored_event d = record {
  at = d.received_at;
  task_id = none;
  repo = d.repo;
  kind = d.routing;
  detail = none;
}

abbrev pub detail_of : ℕ → Option String → Option String
detail_of n none = none
detail_of n (some d) = some ("attempt " <> decimal n <> ": " <> d)

abbrev pub attempt_event : TaskRow → AttemptRow → AuditEvent
attempt_event t a = record {
  at = at_or a.started_at a.ended_at;
  task_id = some a.task_id;
  repo = some t.repo;
  kind = "attempt:" <> or_id a.outcome "running";
  detail = detail_of a.attempt a.detail;
}

abbrev pub joins : Option ApiScope → AttemptRow → TaskRow → Bool
joins scope a t = a.task_id == t.id && in_installation scope t.installation_id

-- task_attempts a JOIN tasks t ON a.task_id = t.id
unfoldable pub attempt_events : Option ApiScope → List TaskRow → List AttemptRow → List AuditEvent
attempt_events scope tasks [] = []
attempt_events scope tasks (a ∷ attempts) =
    map (λ (t : TaskRow). attempt_event t a) (select_where (joins scope a) tasks)
    ++ attempt_events scope tasks attempts

abbrev pub has_pr : Option ApiScope → TaskRow → Bool
has_pr scope t = not (is_none t.pr_number) && in_installation scope t.installation_id

abbrev pub pr_detail : Option ℕ → Option String
pr_detail none = none
pr_detail (some n) = some ("PR #" <> decimal n)

abbrev pub pr_event : TaskRow → AuditEvent
pr_event t = record {
  at = t.updated_at;
  task_id = some t.id;
  repo = some t.repo;
  kind = "pr_opened";
  detail = pr_detail t.pr_number;
}

abbrev pub later : AuditEvent → AuditEvent → Bool
later a b = ltb b.at a.at

abbrev pub event_in_repos : Option (List String) → Option String → Bool
event_in_repos none repo = true
event_in_repos (some allowed) none = false
event_in_repos (some allowed) (some repo) = contains repo allowed

abbrev pub event_visible : Option ApiScope → AuditEvent → Bool
event_visible none e = true
event_visible (some s) e = event_in_repos s.repos e.repo

unfoldable pub all_events : Db → Option ApiScope → List AuditEvent
unfolding attempt_events
all_events db scope =
    map ignored_event (select_where (is_ignored scope) db.deliveries)
    ++ (attempt_events scope db.tasks db.attempts
        ++ map pr_event (select_where (has_pr scope) db.tasks))

unfoldable pub audit_events : Db → Option ApiScope → ℕ → List AuditEvent
unfolding all_events
audit_events db scope limit =
    take limit (select_where (event_visible scope) (sort_by later (all_events db scope)))
