-- ===== src/Workers/Runtime.antt =====
-- PullWorker (workers/runtime.py): how one delivery is resolved, executed and settled. The time is
-- read where the code reads it; the database and the monotonic clock of the event loop agree on a
-- duration.
pub mod Settles
use mathlib.Core.Option
use bike_doc.Prelude.{
  ℕ, ◌+◌, ◌-◌, String, Bool, true, false, not, ◌&&◌, ◌||◌, Option, none, some, max, leb, ltb,
  if◌then◌else◌, or_else,
}
use bike_doc.Jobs.Row.{State, Job}
use bike_doc.Jobs.Values.{JobSnapshot, from_row, JobOutcome, ResolutionKind, DeliveryResolution}
use bike_doc.Jobs.Recovery.{is_retrying}
use bike_doc.Jobs.Table.{Table, lock, apply_outcome}
use bike_doc.Workers.Policy.{HandlerPolicy, validate_outcome}

-- What the transport is told. `unsettled` is nothing: the broker redelivers after its ack wait.
pub data Settlement : Type 0 where
  ack terminate unsettled : Settlement
  nak : ℕ → Settlement

-- One millisecond
abbrev pub least_delay : ℕ
least_delay = 1000

-- `max(0.001, (at - now).total_seconds())`
abbrev pub delay_until : ℕ → ℕ → ℕ
delay_until at now = max least_delay (at - now)

-- What _resolved does with a resolution: settle it, or execute the job.
pub data Action : Type 0 where
  settle : Settlement → Action
  execute : JobSnapshot → Action

-- _resolved; `none` is a failed assertion.
unfoldable pub resolved : ℕ → ℕ → DeliveryResolution → Option Action
resolved recovery_delay now r = elim r.kind [
  | ResolutionKind.terminal ↦ some (settle ack)
  | ResolutionKind.stale ↦ some (settle ack)
  | ResolutionKind.exhausted ↦ some (settle ack)
  | ResolutionKind.prohibited ↦ some (settle terminate)
  | ResolutionKind.missing ↦ some (settle terminate)
  | ResolutionKind.definition_failure ↦ some (settle terminate)
  | ResolutionKind.early ↦ Option.map (λ at. settle (nak (delay_until at now))) r.wait_until
  | ResolutionKind.running ↦ Option.map (λ at. settle (nak (delay_until at now))) r.wait_until
  | ResolutionKind.recovery_wait ↦ some (settle (nak recovery_delay))
  | ResolutionKind.executable ↦ Option.map execute r.job
]

-- How the handler task ends: with an outcome in time, with an exception, after the cancellation
-- within its grace, or not at all.
pub data HandlerEnd : Type 0 where
  outcome : JobOutcome → HandlerEnd
  raised cancelled resistant : HandlerEnd

-- The outcome that _execute applies; `none` leaves the delivery unsettled.
unfoldable pub handler_outcome : HandlerPolicy → HandlerEnd → Option JobOutcome
unfolding validate_outcome
handler_outcome p (outcome o) = if validate_outcome p o then some o else none
handler_outcome p cancelled =
    if validate_outcome p p.timeout_outcome then some p.timeout_outcome else none
handler_outcome p raised = none
handler_outcome p resistant = none

-- The settlement that follows the persisted state.
unfoldable pub settle_persisted : ℕ → Option Job → Settlement
settle_persisted now none = unsettled
settle_persisted now (some row) =
    if is_retrying row.state then nak (delay_until row.eligible_at now) else ack

-- apply_outcome_and_load, and the settlement: the end of _execute from the outcome on. `finished`
-- is the time when the handler ended, `applied` that of the database and `settled` that of the nak.
unfoldable pub finish_execution :
    JobSnapshot → String → ℕ → JobOutcome → ℕ → ℕ → ℕ → Table → Settlement × Table
unfolding settle_persisted apply_outcome lock
finish_execution job token deadline o finished applied settled t =
    if leb deadline finished
    then (unsettled, t)
    else (let (done, t') = apply_outcome job.id token o applied t in
        (if done then settle_persisted settled (lock job.id t') else unsettled, t'))

-- _execute. `claimed` is the time when the worker starts; a claim that left no time for the handler
-- is left to the recovery. `none` is a failed assertion.
unfoldable pub execute_job :
    HandlerPolicy → JobSnapshot → HandlerEnd → ℕ → ℕ → ℕ → ℕ → Table → Option (Settlement × Table)
unfolding handler_outcome finish_execution
execute_job p job end claimed finished applied settled t = elim job.execution_deadline [
  | none ↦ none
  | some deadline ↦
      if leb deadline (claimed + (p.timeout_grace + p.settlement_reserve))
      then some (unsettled, t)
      else elim (handler_outcome p end) [
        | none ↦ some (unsettled, t)
        | some o ↦ elim job.execution_token [
          | none ↦ none
          | some token ↦ some (finish_execution job token deadline o finished applied settled t)
        ]
      ]
]
