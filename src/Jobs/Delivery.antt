-- ===== src/Jobs/Delivery.antt =====
-- The execution half of BackgroundJobRepository (repositories/background_jobs.py): what a delivery
-- finds, how an execution is claimed, and how its outcome is applied. Each function takes the row
-- that the method has locked and the time that it read after the lock.
pub mod Shape
pub mod Fencing
pub mod Answers
use bike_doc.Prelude.{
  ℕ, ◌+◌, String, Bool, false, not, ◌&&◌, ◌||◌, Option, none, some, ltb, leb, str_eq, if◌then◌else◌,
  or_else, is_some, text_is,
}
use bike_doc.Jobs.Row.{
  Job, JobError, running, retrying, attempts_exhausted, is_terminal, is_running,
}
use bike_doc.Jobs.Values.{
  JobSnapshot, from_row, ExecutionPolicy, Definition, policy, refused, JobOutcome, final, retry,
  death, is_retry, ResolutionKind, DeliveryResolution, final_state,
}

-- The columns that every branch of `_finish` resets.
abbrev pub close_execution : Job → Option JobError → ℕ → Job
close_execution row e now = record row {
  latest_error_category = e;
  execution_token = none;
  execution_started_at = none;
  execution_deadline = none;
  updated_at = now;
}

settle : Job → JobOutcome → ℕ → Job
settle row (retry e delay) now = record (close_execution row e now) {
  state = retrying;
  eligible_at = now + delay;
}
settle row (final f e) now = record (close_execution row e now) {
  state = final_state f;
  terminal_at = some now;
}

-- _finish: a retry with no attempt left is a death.
unfoldable pub finish : Job → JobOutcome → ℕ → Job
unfolding settle
finish row outcome now =
    if is_retry outcome && leb row.attempt_limit row.attempt_count
    then settle row (final death (some attempts_exhausted)) now
    else settle row outcome now

abbrev pub resolution : ResolutionKind → Job → Option ℕ → DeliveryResolution
resolution kind row wait = record { kind = kind; job = some (from_row row); wait_until = wait }

-- The claim of an execution: the last block of resolve_delivery.
unfoldable pub claim_execution : Job → ExecutionPolicy → ℕ → String → Job
claim_execution row p now token = record row {
  state = running;
  attempt_count = row.attempt_count + 1;
  first_started_at = some (or_else row.first_started_at now);
  execution_started_at = some now;
  execution_deadline = some (now + p.hard_duration);
  execution_token = some token;
  updated_at = now;
}

-- The branches after the definition was validated.
unfoldable pub resolve_defined : Definition → Job → ℕ → String → DeliveryResolution × Job
unfolding finish claim_execution
resolve_defined (refused e) row now token =
    let row' = finish row (final death (some e)) now in
    (resolution ResolutionKind.definition_failure row' none, row')
resolve_defined (policy p) row now token =
    if ltb now row.eligible_at
    then (resolution ResolutionKind.early row (some row.eligible_at), row)
    else if leb row.attempt_limit row.attempt_count
    then (let row' = finish row (final death (some attempts_exhausted)) now in
        (resolution ResolutionKind.exhausted row' none, row'))
    else (let row' = claim_execution row p now token in
        (resolution ResolutionKind.executable row' none, row'))

-- The branch of a row in state running. `none` is the failed assertion of a missing deadline.
unfoldable pub resolve_running : Job → ℕ → Option (DeliveryResolution × Job)
resolve_running row now = elim row.execution_deadline [
  | none ↦ none
  | some deadline ↦ some (
    resolution (if ltb now deadline then ResolutionKind.running else ResolutionKind.recovery_wait)
        row (some deadline),
    row,
  )
]

-- resolve_delivery, on the locked row. `token` is the fresh uuid4.
unfoldable pub resolve_row :
    ℕ → String → (JobSnapshot → Definition) → ℕ → String → Job → Option (DeliveryResolution × Job)
unfolding resolve_defined resolve_running
resolve_row generation workload_class validate now token row =
    if ltb generation 1
      || ltb row.desired_generation generation
      || not (str_eq row.workload_class workload_class)
    then some (resolution ResolutionKind.prohibited row none, row)
    else if is_terminal row.state
    then some (resolution ResolutionKind.terminal row none, row)
    else if ltb generation row.desired_generation
    then some (resolution ResolutionKind.stale row none, row)
    else if is_running row.state
    then resolve_running row now
    else some (resolve_defined (validate (from_row row)) row now token)

-- A deadline that has not passed: neither NULL nor at most `now`.
abbrev pub is_live : Option ℕ → ℕ → Bool
is_live none now = false
is_live (some deadline) now = ltb now deadline

-- The guard that apply_outcome and require_execution share.
unfoldable pub is_current : Job → String → ℕ → Bool
is_current row token now =
    is_running row.state && text_is row.execution_token token && is_live row.execution_deadline now

-- apply_outcome, on the locked row; `none` is the answer False, with nothing written.
unfoldable pub apply_outcome_row : String → JobOutcome → ℕ → Job → Option Job
unfolding is_current finish
apply_outcome_row token outcome now row =
    if not (is_current row token now)
    then none
    else if is_retry outcome && is_some row.effect_boundary_at
    then none
    else some (finish row outcome now)
