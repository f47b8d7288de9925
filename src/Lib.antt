-- ===== src/Lib.antt =====
-- coven-github, the GitHub App adapter that turns webhook deliveries into tasks for AI familiars.
--
-- The program is a Rust workspace under crates/. The webhook crate receives deliveries and routes
-- them by the configuration (crates/config) to tasks; the store (crates/store) records each delivery
-- with its task in SQLite, and is the queue from which the worker (crates/worker) claims tasks, runs
-- a session for each, and writes back the result; the dashboard reads the store's task list.
--
-- What models what:
--   * Base: the names and lemmas that the other modules share; Base.Tables has the statements of
--     SQL on a table (WHERE with UPDATE, SELECT and DELETE, ORDER BY), Base.Text the functions on
--     `str` and `format!`.
--   * GitHub: `Task` and `TaskKind` of crates/github/src/lib.rs, and crates/github/src/tasks.rs;
--     GitHub.Events has the typed events.
--   * Store: crates/store/src/lib.rs. Store.Schema has the tables of `migrate` and the store's
--     types; Store.Deliveries `record_delivery`; Store.Queue `claim_next`, `finish`,
--     `recover_interrupted` and the other operations on the queue; Store.Retention the deletions;
--     Store.Billing plans and accounts; Store.Memory memory activity and revocations; Store.Cave the
--     task list; Store.Audit the audit trail; Store.Usage the rollup of usage.
--     Store.Validity has the invariant of the tables, and
--     Store.Runs the sequences of operations. The modules below each of these hold the proofs about
--     it.
--   * Config: the routing scopes, limits and plan tiers of crates/config/src/lib.rs, the policies
--     of reviews, memory and the gardener, and the credentials of the API.
--   * Webhook: crates/webhook/src. Webhook.Payload is events.rs; Webhook.Commands is commands.rs;
--     Webhook.Routing and Webhook.Replies are `event_to_task`, `parse_command` and `command_task` of
--     routes.rs; Webhook.Intake is `handle_webhook` and what it calls, from the signature to the
--     answer; Webhook.Api has the handlers of the task API. A handler returns its answer and the
--     tables after it; `handle_webhook` also tells whether it wakes the worker.
--   * Worker: Worker.Limits is the loop of `run` in crates/worker/src/lib.rs that gathers the caps
--     of a claim; Worker.Memory is crates/worker/src/memory.rs;
--     Worker.Session has the session result of crates/github/src/lib.rs, its contract, the
--     attempts of `run_session_with_backoff` and the outcome of crates/worker/src/lib.rs;
--     Worker.Findings is the gate and the digest of crates/worker/src/findings.rs; Worker.Schedule is
--     gardener_schedule.rs, Worker.Garden and Worker.GardenRun are gardener_exec.rs, Worker.Redact is
--     redact.rs, Worker.Brief is brief.rs, Worker.Backend backend.rs up to the launch,
--     Worker.Surface and Worker.Pipeline are the run of a task in
--     crates/worker/src/lib.rs from its claim to its end (`execute_task`), and Worker.Hub has
--     status_comment.rs and the calls of GitHub as an interface, `Hub`,
--     over any state of GitHub, which others may change between two calls.
--   * Gardener: crates/gardener/src/scan.rs, the classification of branches and the plan. `none`
--     stands for a panic of the code. Gardener.Schedule is schedule.rs and Gardener.Report report.rs.
--   * Examples: concrete tables and inputs, and the theorems applied to them.
--
-- How state and operations correspond: a table is the list of its rows, newest first, and the store
-- is the record `Db` of its tables. An operation has the name of its Rust method and takes the time
-- that it reads as an argument; it returns its result and the tables after it. Each method of the
-- store is one transaction behind the store's mutex, so that a history of concurrent callers is a
-- list of operations (`Store.Runs.run`). Violations of the schema (a primary key that is taken, a
-- foreign key at the commit) are errors of the model, which leave the tables as they were; failures
-- of the disk are modelled for `handle_webhook` only. The codec of serde_json for a task's kind is
-- a parameter, `KindJson`, and so are HMAC, SHA-256, hex and the JSON of a payload (`Wire`, `digest`), the
-- Unicode tables of `char::is_alphanumeric` (`beyond`) and SQLite's strftime (`seconds`), and the
-- disk and the launches of a session (`Machine`). A handler reads one time for all that it does, in
-- nanoseconds, and is given the id that its task would have.
-- Timestamps are RFC 3339 texts in UTC, which compare as the instants that they name, and are
-- numbers here. Texts compare by their characters' codes, as in SQLite's BINARY collation. Numbers are
-- unbounded: the counters of attempts and of running tasks grow by one for each claim. A `HashMap`
-- is an association list, searched from its start.
--
-- Fuel: `Base.Text.decimal` runs on its argument and one, which is more than the number of digits, and
-- `Base.Words.trim_end_matches` and the scans of Worker.Redact on the number of characters, of which
-- each round takes off one at least. Every other function is structurally recursive: the retry loop on
-- the retries left, which are `max_retries` at first, so that it makes at most one launch more than that.
--
-- Handlers at once: `handle_webhook` is one step on the tables. Its transactions are several, and
-- Webhook.Intake.Concurrent has the two between which another handler matters, the reading of the
-- quota and the record of the delivery, as turns that interleave.
-- Any call that `handle_webhook` makes of the store may fail (`Call`, in `Wire.fails`), for the disk or for an id that
-- SQLite does not take, which are those from 2^63 on.
--
-- Not modelled: HTTP, the GitHub API clients, the server's start-up, and the sandboxes of sessions,
-- which are input and output; the diagnostics of the configuration.
pub mod Base
pub mod GitHub
pub mod Store
pub mod Config
pub mod Worker
pub mod Gardener
pub mod Webhook
pub mod Examples
