-- ===== src/Worker/Session/Retries.antt =====
-- The launches of a session: `run_coven_code`, `read_result` and `run_session_with_backoff` of
-- crates/worker/src/lib.rs. What a launch does and what it leaves in its result file are
-- parameters, one for each attempt; the waits between attempts are not modelled.
pub mod Boundary
use coven_github.Base.{
  ℕ, Bool, Option, String, code, decimal, if◌then◌else◌, nat_Eq, none, some, suc, text_Eq, zero,
  ◌&&◌, ◌+◌, ◌<>◌, ◌==◌, ◌||◌,
}
use coven_github.Worker.Session.{SessionResult}
use coven_github.Worker.Session.Contract.{validate_result_contract}

-- An exit status is a number; `none` is a kill by a signal.
pub data LaunchOutcome : Type 0 where
  exited : Option ℕ → LaunchOutcome
  timed_out : LaunchOutcome
  launch_failed : String → LaunchOutcome

-- What the file holds: nothing, a text that serde_json refuses with an error, or a result.
pub data ResultFile : Type 0 where
  unwritten : ResultFile
  unparseable : String → ResultFile
  written : SessionResult → ResultFile

pub data Fallible {ℓ} (A : Type ℓ) : Type ℓ where
  value : A → Fallible A
  error : String → Fallible A

pub data Attempt : Type 0 where
  finished_with : SessionResult → Attempt
  retry_safe : String → Attempt

abbrev pub checked_result : SessionResult → Option String → Fallible SessionResult
checked_result r none = value r
checked_result r (some e) = error e

unfoldable pub read_result : ResultFile → Fallible SessionResult
read_result unwritten = error "result.json not written by coven-code"
read_result (unparseable e) = error e
read_result (written r) = checked_result r (validate_result_contract r)

-- 0 | 1 | 3
abbrev pub is_terminal_code : ℕ → Bool
is_terminal_code code = code == 0 || code == 1 || code == 3

unfoldable pub explains_kill : Bool → ℕ → Option String
explains_kill in_container code =
    if in_container && code == 137
    then some "container killed (exit 137) — memory limit or forced stop"
    else none

abbrev pub unusable : ℕ → Fallible SessionResult → Attempt
unusable code (value r) = finished_with r
unusable code (error e) =
    retry_safe ("coven-code exited " <> decimal code <> " but result.json was unusable: " <> e)

abbrev pub unexpected : ℕ → Option String → Attempt
unexpected code none = retry_safe ("coven-code exited with unexpected code " <> decimal code)
unexpected code (some reason) =
    retry_safe ("coven-code exited with unexpected code " <> decimal code <> ": " <> reason)

module _ (in_container : Bool) (timeout_secs : ℕ) where
  unfoldable pub run_coven_code : LaunchOutcome → ResultFile → Attempt
  unfolding read_result explains_kill
  run_coven_code (exited none) file = retry_safe "coven-code killed by signal"
  run_coven_code (exited (some code)) file =
      if is_terminal_code code
      then unusable code (read_result file)
      else if code == 2
      then retry_safe "coven-code infra error (exit 2)"
      else unexpected code (explains_kill in_container code)
  run_coven_code timed_out file =
      retry_safe ("coven-code timed out after " <> decimal timeout_secs <> " seconds")
  run_coven_code (launch_failed message) file = retry_safe message

  module _ (launch : ℕ → LaunchOutcome) (file : ℕ → ResultFile) where
    unfoldable pub attempt : ℕ → Attempt
    unfolding run_coven_code
    attempt n = run_coven_code (launch n) (file n)

    -- The loop at attempt `n` with `left` retries: `attempts < max_retries` while `left` is not 0.
    unfoldable pub session_from : ℕ → ℕ → Fallible SessionResult
    session_from zero n = elim (attempt n) [ finished_with r ↦ value r | retry_safe e ↦ error e ]
    session_from (suc left) n =
        let retry = session_from left (n + 1) in
        elim (attempt n) [ finished_with r ↦ value r | retry_safe e ↦ retry ]

    unfoldable pub run_session : ℕ → Fallible SessionResult
    unfolding session_from
    run_session max_retries = session_from max_retries 0
