-- ===== src/Worker/Session/Retries/Boundary.antt =====
-- Which attempts are retried (crates/worker/src/lib.rs).
use coven_github.Worker.Session.Contract.{validate_result_contract}
use mathlib.Core.Path.{subst}
use coven_github.Worker.Session.{SessionResult}
use coven_github.Base.{
  ℕ, All, Bool, Bool-cases, List, Option, Option-cases, String, [], ap, arith, false, inl, inr,
  nat_Eq, none, refl, some, suc, text_Eq, true, zero, ◌+◌, ◌==◌, ◌∙◌, ◌∷◌, ◌≡◌, ◌≢◌, ◌≤◌, ◌⊎◌,
}
use coven_github.Worker.Session.Retries.{
  Attempt, Fallible, LaunchOutcome, ResultFile, attempt, error, exited, explains_kill,
  finished_with, is_terminal_code, launch_failed, read_result, retry_safe, run_coven_code,
  run_session, session_from, timed_out, unexpected, unparseable, unusable, unwritten, value,
  written,
}

abbrev pub is_retry_safe : Attempt → Bool
is_retry_safe (finished_with r) = false
is_retry_safe (retry_safe e) = true

-- The `k` attempts from `n` on.
unfoldable pub attempts_from : ℕ → ℕ → List ℕ
attempts_from n zero = []
attempts_from n (suc k) = n ∷ attempts_from (n + 1) k

Attempt-cases :
    (a : Attempt)
    → ((r : SessionResult) × (a ≡ finished_with r)) ⊎ ((e : String) × (a ≡ retry_safe e))
Attempt-cases (finished_with r) = inl (r, refl)
Attempt-cases (retry_safe e) = inr (e, refl)

value-injective : {x y : SessionResult} → value x ≡ value y → x ≡ y
value-injective e = cc

abbrev failing : String → Fallible SessionResult
failing e = error e

error-injective : {x y : String} → failing x ≡ failing y → x ≡ y
error-injective e = cc

-- What an attempt that ends the loop was: the process exited with one of the terminal codes, and
-- left a result that fulfils the contract.
pub record Conclusive (outcome : LaunchOutcome) (file : ResultFile) (r : SessionResult)
    : Type 0 where
  pub code : ℕ
  pub launched : outcome ≡ exited (some code)
  pub terminal : is_terminal_code code ≡ true
  pub left : file ≡ written r
  pub valid : validate_result_contract r ≡ none

read_result-value :
    (file : ResultFile) (r : SessionResult)
    → read_result file ≡ value r
    → (file ≡ written r) × (validate_result_contract r ≡ none)
unfolding read_result
read_result-value unwritten r e = cc
read_result-value (unparseable x) r e = cc
read_result-value (written s) r e = elim (Option-cases (validate_result_contract s)) [
  | inr (x, q) ↦ cc (rw (q, read_result) at e)
  | inl q ↦
      subst (λ (t : SessionResult). (written s ≡ written t) × (validate_result_contract t ≡ none))
        (value-injective (rw (q, read_result) at e)) (refl, q)
]

unusable-finished :
    (code : ℕ) (o : Fallible SessionResult) (r : SessionResult)
    → unusable code o ≡ finished_with r
    → o ≡ value r
unusable-finished code (value s) r e = cc
unusable-finished code (error x) r e = cc

unexpected-ne-finished :
    (code : ℕ) (o : Option String) (r : SessionResult) → unexpected code o ≢ finished_with r
unexpected-ne-finished code none r e = cc
unexpected-ne-finished code (some x) r e = cc

run_coven_code-Conclusive :
    (in_container : Bool) (secs : ℕ) (outcome : LaunchOutcome) (file : ResultFile)
    (r : SessionResult)
    → run_coven_code in_container secs outcome file ≡ finished_with r
    → Conclusive outcome file r
unfolding run_coven_code
run_coven_code-Conclusive c secs (exited none) file r e = cc
run_coven_code-Conclusive c secs timed_out file r e = cc
run_coven_code-Conclusive c secs (launch_failed x) file r e = cc
run_coven_code-Conclusive c secs (exited (some code)) file r e =
    elim (Bool-cases (is_terminal_code code)) [
      | inl q ↦
          let (wrote, valid) =
            read_result-value file r
              (unusable-finished code (read_result file) r (rw (q, run_coven_code) at e)) in
          record { code = code; launched = refl; terminal = q; left = wrote; valid = valid }
      | inr q ↦ elim (Bool-cases (code == 2)) [
        | inl two ↦ cc (rw (q, two, run_coven_code) at e)
        | inr other ↦ absurd (
            unexpected-ne-finished code (explains_kill c code) r
              (rw (q, other, run_coven_code) at e))
      ]
    ]

module _ (in_container : Bool) (secs : ℕ) (launch : ℕ → LaunchOutcome) (file : ℕ → ResultFile) where
  abbrev Retried : ℕ → Type 0
  Retried j = is_retry_safe (attempt in_container secs launch file j) ≡ true

  at_same :
      {m k : ℕ} {a : Attempt}
      → m ≡ k
      → attempt in_container secs launch file m ≡ a
      → attempt in_container secs launch file k ≡ a
  at_same {a} same = subst (λ m. attempt in_container secs launch file m ≡ a) same

  session_from-value :
      (left n : ℕ) (r : SessionResult)
      → session_from in_container secs launch file left n ≡ value r
      → (k : ℕ) × (k ≤ left)
        × (attempt in_container secs launch file (n + k) ≡ finished_with r)
        × All Retried (attempts_from n k)
  unfolding session_from attempts_from
  session_from-value zero n r e = elim (Attempt-cases (attempt in_container secs launch file n)) [
    | inl (s, q) ↦ (
      0,
      omega arith,
      at_same (omega arith) (q ∙ ap finished_with (value-injective (rw (q, session_from) at e))),
      tt,
    )
    | inr (x, q) ↦ cc (rw (q, session_from) at e)
  ]
  session_from-value (suc left) n r e =
      elim (Attempt-cases (attempt in_container secs launch file n)) [
        | inl (s, q) ↦ (
          0,
          omega arith,
          at_same (omega arith)
              (q ∙ ap finished_with (value-injective (rw (q, session_from) at e))),
          tt,
        )
        | inr (x, q) ↦
            let (k, within, last, before) =
              session_from-value left (n + 1) r (rw (q, session_from) at e) in
            (suc k, omega (arith, within), at_same (omega arith) last, (ap is_retry_safe q, before))
      ]

  session_from-error :
      (left n : ℕ) (e : String)
      → session_from in_container secs launch file left n ≡ error e
      → All Retried (attempts_from n (suc left))
        × (attempt in_container secs launch file (n + left) ≡ retry_safe e)
  unfolding session_from attempts_from
  session_from-error zero n e h = elim (Attempt-cases (attempt in_container secs launch file n)) [
    | inl (s, q) ↦ cc (rw (q, session_from) at h)
    | inr (x, q) ↦ (
      (ap is_retry_safe q, tt),
      at_same (omega arith) (q ∙ ap retry_safe (error-injective (rw (q, session_from) at h))),
    )
  ]
  session_from-error (suc left) n e h =
      elim (Attempt-cases (attempt in_container secs launch file n)) [
        | inl (s, q) ↦ cc (rw (q, session_from) at h)
        | inr (x, q) ↦
            let (all, last) = session_from-error left (n + 1) e (rw (q, session_from) at h) in
            ((ap is_retry_safe q, all), at_same (omega arith) last)
      ]

  -- A session that returns a result stopped at an attempt within the retries, which exited with 0,
  -- 1 or 3 and left this result, which fulfils the contract; every attempt before it was safe to
  -- retry.
  pub run_session-value :
      (max_retries : ℕ) (r : SessionResult)
      → run_session in_container secs launch file max_retries ≡ value r
      → (k : ℕ) × (k ≤ max_retries)
        × Conclusive (launch k) (file k) r
        × All
            (λ j. is_retry_safe (attempt in_container secs launch file j) ≡ true)
            (attempts_from 0 k)
  unfolding run_session attempt
  run_session-value max_retries r e =
      let (k, within, last, before) = session_from-value max_retries 0 r e in
      (
        k,
        within,
        run_coven_code-Conclusive in_container secs (launch k) (file k) r
            (unfold attempt in at_same (omega arith) last),
        before,
      )

  -- A session fails only after it has used every retry, with the error of the last attempt: all of
  -- its attempts were safe to retry.
  pub run_session-error :
      (max_retries : ℕ) (e : String)
      → run_session in_container secs launch file max_retries ≡ error e
      → All
          (λ j. is_retry_safe (attempt in_container secs launch file j) ≡ true)
          (attempts_from 0 (suc max_retries))
        × (attempt in_container secs launch file max_retries ≡ retry_safe e)
  unfolding run_session
  run_session-error max_retries e h =
      let (all, last) = session_from-error max_retries 0 e h in (all, at_same (omega arith) last)
