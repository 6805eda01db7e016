-- ===== src/Jobs/Recovery.antt =====
-- The maintenance half of BackgroundJobRepository (repositories/background_jobs.py): recovery after
-- the hard deadline, the scans, and the deletion of retained rows. Then the irreversible boundary
-- of repositories/diagnostic_execution.py. `none` is the answer False, with nothing written.
pub mod Retention
use bike_doc.Prelude.{
  ℕ, ◌+◌, String, Bool, true, false, not, ◌&&◌, ◌||◌, Option, none, some, ltb, leb, ◌==◌, str_eq,
  if◌then◌else◌, is_some, is_none, text_is, number_is,
}
use bike_doc.Jobs.Row.{Job, retrying, State, is_terminal, is_running, is_waiting}
use bike_doc.Jobs.Values.{JobOutcome, is_retry, is_success}
use bike_doc.Jobs.Delivery.{finish, is_live}

-- A deadline that has passed: `execution_deadline <= now`, false of NULL.
abbrev pub has_passed : Option ℕ → ℕ → Bool
has_passed none now = false
has_passed (some deadline) now = leb deadline now

abbrev pub is_retrying : State → Bool
is_retrying retrying = true
is_retrying _ = false

-- A recovered retry raises a new notification, due when the job becomes eligible.
abbrev pub notify_again : Job → Job
notify_again row =
    if is_retrying row.state
    then record row {
      desired_generation = row.desired_generation + 1;
      publication_eligible_at = row.eligible_at;
    }
    else row

-- recover_expired of the base repository, up to _persist_transition; what the product repositories make of
-- the row before it is stored is in Repairs.Terminalize. The outer `none` is the ValueError for an outcome of success.
unfoldable pub recover_expired_row : String → JobOutcome → ℕ → Job → Option (Option Job)
unfolding finish
recover_expired_row token outcome now row =
    if is_success outcome
    then none
    else if not (
          is_running row.state
          && text_is row.execution_token token
          && has_passed row.execution_deadline now)
        || (is_retry outcome && is_some row.effect_boundary_at)
    then some none
    else some (some (notify_again (finish row outcome now)))

pub data Purpose : Type 0 where
  expired no_progress retention : Purpose

-- The WHERE clause of claim_scan for each purpose.
unfoldable pub is_candidate : Purpose → ℕ → ℕ → Job → Bool
is_candidate expired before now row =
    is_running row.state
    && has_passed row.execution_deadline now
    && has_passed row.execution_deadline before
is_candidate no_progress before now row =
    is_waiting row.state
    && leb row.eligible_at now
    && ltb row.attempt_count row.attempt_limit
    && is_none row.effect_boundary_at
    && leb row.updated_at before
is_candidate retention before now row =
    is_terminal row.state
    && has_passed row.terminal_at before
    && leb row.updated_at before
    && (row.desired_generation == row.confirmed_generation)
    && is_none row.publication_claim_token

-- The recheck of delete_retained under the row lock.
unfoldable pub may_delete : ℕ → Job → Bool
may_delete before row =
    is_terminal row.state
    && has_passed row.terminal_at before
    && leb row.updated_at before
    && (row.desired_generation == row.confirmed_generation)
    && is_none row.publication_claim_token

-- The execution that a DiagnosticExecution names.
pub record DiagnosticExecution : Type 0 where
  pub job_id : String
  pub token : String
  pub deadline : ℕ

-- DiagnosticExecutionFence._require on the locked row: whether it raises nothing.
unfoldable pub require_fence : DiagnosticExecution → Bool → ℕ → Job → Bool
require_fence e boundary now row =
    str_eq row.job_kind "diagnostic_turn"
    && is_running row.state
    && text_is row.execution_token e.token
    && number_is row.execution_deadline e.deadline
    && is_live row.execution_deadline now
    && (not boundary
        || (is_some row.effect_boundary_at && text_is row.effect_boundary_token e.token))

-- cross_boundary: the conditional update, then the check with the boundary. `now` is the time of
-- the first check, `then_` that of the update and `later` that of the second check. `none` is the
-- StaleDiagnosticExecutionError, after which the caller rolls back.
unfoldable pub cross_boundary_row : DiagnosticExecution → ℕ → ℕ → ℕ → Job → Option Job
unfolding require_fence
cross_boundary_row e now then_ later row =
    if not (require_fence e false now row)
    then none
    else if is_some row.effect_boundary_at
    then (if text_is row.effect_boundary_token e.token then some row else none)
    else (let row' =
          if is_live row.execution_deadline then_
          then record row { effect_boundary_at = some then_; effect_boundary_token = some e.token }
          else row in
        if require_fence e true later row' then some row' else none)
