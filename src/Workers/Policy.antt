-- ===== src/Workers/Policy.antt =====
-- The recovery policies of workers/diagnostic.py and workers/profile_inference.py, and what their
-- handlers answer. A retry delay of the settings is a number of microseconds.
pub mod Recovers
use bike_doc.Prelude.{
  ℕ, ◌+◌, Bool, true, false, ◌&&◌, ◌||◌, Option, none, some, leb, ltb, is_some, is_none,
  if◌then◌else◌,
}
use bike_doc.Jobs.Row.{
  State, JobError, is_waiting, execution_lost, attempts_exhausted, permanent_failure,
  execution_timeout, provider_unavailable,
}
use bike_doc.Jobs.Values.{
  JobSnapshot, JobOutcome, final, retry, success, interruption, death, bounded_duration,
}

-- DiagnosticRecoveryPolicy.expired_outcome
unfoldable pub diagnostic_expired : ℕ → JobSnapshot → JobOutcome
diagnostic_expired delay job =
    if is_some job.effect_boundary_at
    then final interruption (some execution_lost)
    else if leb job.attempt_limit job.attempt_count
    then final death (some attempts_exhausted)
    else retry (some execution_lost) delay

-- DiagnosticRecoveryPolicy.may_republish
unfoldable pub diagnostic_republish : JobSnapshot → Bool
diagnostic_republish job =
    is_waiting job.state
    && is_none job.execution_deadline
    && is_none job.effect_boundary_at
    && ltb job.attempt_count job.attempt_limit

-- ProfileRecoveryPolicy.expired_outcome
unfoldable pub profile_expired : ℕ → JobSnapshot → Option JobOutcome
profile_expired delay job =
    if is_some job.effect_boundary_at
    then none
    else if leb job.attempt_limit job.attempt_count
    then some (final death (some attempts_exhausted))
    else some (retry (some execution_lost) delay)

-- ProfileRecoveryPolicy.may_republish
unfoldable pub profile_republish : JobSnapshot → Bool
profile_republish job = is_none job.effect_boundary_at && ltb job.attempt_count job.attempt_limit

-- How the application of a diagnostic turn ends; `stale` is the StaleDiagnosticExecutionError.
pub data Execution : Type 0 where
  returned stale failed : Execution
  preparation_failed : JobError → Bool → Execution

-- DiagnosticTurnHandler.__call__; `none` is the error that it passes on.
unfoldable pub diagnostic_handler : ℕ → Execution → Option JobOutcome
diagnostic_handler delay returned = some (final success none)
diagnostic_handler delay stale = none
diagnostic_handler delay failed = some (final death (some permanent_failure))
diagnostic_handler delay (preparation_failed category retryable) =
    if retryable then some (retry (some category) delay) else some (final death (some category))

-- ProfileInferenceStatus, and ProfileInferenceHandler.__call__
pub data InferenceStatus : Type 0 where
  started completed abstained retryable_failure terminal_failure exhausted : InferenceStatus
  retried skipped : InferenceStatus

unfoldable pub profile_handler : ℕ → InferenceStatus → JobOutcome
profile_handler delay completed = final success none
profile_handler delay abstained = final success none
profile_handler delay skipped = final success none
profile_handler delay exhausted = final death (some attempts_exhausted)
profile_handler delay terminal_failure = final death (some permanent_failure)
profile_handler delay _ = retry (some provider_unavailable) delay

-- HandlerPolicy, but for the effect label and the recovery policy, which the runtime passes on
pub record HandlerPolicy : Type 0 where
  pub attempt_limit : ℕ
  pub max_retry_delay : ℕ
  pub hard_duration : ℕ
  pub timeout_grace : ℕ
  pub settlement_reserve : ℕ
  pub timeout_outcome : JobOutcome

-- HandlerPolicy.validate_outcome: whether it raises nothing.
unfoldable pub validate_outcome : HandlerPolicy → JobOutcome → Bool
validate_outcome p (final f e) = true
validate_outcome p (retry e delay) = leb delay p.max_retry_delay

-- HandlerPolicy.__post_init__
unfoldable pub policy_accepted : HandlerPolicy → Bool
unfolding bounded_duration validate_outcome
policy_accepted p =
    leb 1 p.attempt_limit
    && leb p.attempt_limit 100
    && bounded_duration p.max_retry_delay
    && bounded_duration p.hard_duration
    && bounded_duration p.timeout_grace
    && bounded_duration p.settlement_reserve
    && ltb (p.timeout_grace + p.settlement_reserve) p.hard_duration
    && validate_outcome p p.timeout_outcome
