-- ===== src/Tests/History.antt =====
-- One life of the job, write by write, and what holds of every life at this one.
use bike_doc.Prelude.{sym, ℕ, ◌+◌, ◌≤◌, ◌≡◌, refl, true, none, some, arith}
use bike_doc.Jobs.Row.{Job, State, is_terminal, retrying, running, execution_lost}
use bike_doc.Jobs.Values.{Definition, JobSnapshot, policy, success, final, retry, ResolutionKind}
use bike_doc.Jobs.Validity.{IsSound}
use bike_doc.Jobs.Constraints.{IsPermitted, SameOutcome}
use bike_doc.Jobs.Delivery.{resolution, resolve_row, apply_outcome_row}
use bike_doc.Jobs.Publication.{confirm_publication_row}
use bike_doc.Jobs.Recovery.{cross_boundary_row}
use bike_doc.Jobs.Writes.{Write, Positive, Write-IsSound, confirms, resolves, outcomes, crosses}
use bike_doc.Jobs.Writes.Guarded.{Write-IsPermitted}
use bike_doc.Jobs.Writes.History.{
  History, here, next, executions_bounded, boundary_final, outcome_final,
}
use bike_doc.Jobs.Writes.Settled.{IsUnused, apply_outcome_once}
use bike_doc.Jobs.Writes.Refines.{may_step, executing, ended, Write_refines}
use bike_doc.Tests.Rows.{
  token_one, token_two, token_one_length, token_two_length, other_token, queued_job, running_job,
  crossed_job, succeeded_job, retained_job, one_hundred, first_claim, lost_execution,
  queued_job-IsSound, crossed_job-IsSound,
}

abbrev pub accepts_all : JobSnapshot → Definition
accepts_all s = policy one_hundred

pub accepts_all-Positive : Positive accepts_all
accepts_all-Positive s p e = ground arith

pub starts_job : Write 110 queued_job running_job
unfolding resolve_row
starts_job =
    resolves 1 "diagnostic" accepts_all token_one
      (resolution ResolutionKind.executable running_job none) accepts_all-Positive token_one_length
      refl

crosses_boundary : Write 120 running_job crossed_job
unfolding cross_boundary_row
crosses_boundary = crosses lost_execution 120 120 (omega arith) refl

ends_job : Write 150 crossed_job succeeded_job
unfolding apply_outcome_row
ends_job = outcomes token_one (final success none) refl

-- Three writes, one of which starts an execution.
lived : History queued_job succeeded_job 1
unfolding starts_job crosses_boundary ends_job
lived =
    next 150 1 1
      (next 120 1 1 (next 110 0 1 here starts_job (omega arith) refl) crosses_boundary (omega arith)
        refl)
      ends_job (omega arith) refl

-- The publisher answers after the end.
claimed_late : Job
claimed_late = record succeeded_job {
  publication_claim_token = some token_two;
  publication_claim_generation = some 1;
  publication_claim_until = some 170;
}

confirms_job : Write 160 claimed_late retained_job
unfolding confirm_publication_row claimed_late
confirms_job = confirms record first_claim { until = 170 } refl

confirmed : History claimed_late retained_job 0
unfolding confirms_job
confirmed = next 160 0 0 here confirms_job (omega arith) refl

claimed_late_ended : is_terminal claimed_late.state ≡ true
unfolding claimed_late
claimed_late_ended = refl

claimed_late-IsSound : IsSound claimed_late
unfolding claimed_late
claimed_late-IsSound = ground (arith, token_one_length)

executions_bounded_example : 0 + 1 ≤ 3
executions_bounded_example = executions_bounded lived queued_job-IsSound

outcome : History crossed_job succeeded_job 0
unfolding ends_job
outcome = next 150 0 0 here ends_job (omega arith) refl

boundary_final_example :
    (◌≡◌ {A = ℕ} 0 0)
    × (succeeded_job.effect_boundary_at ≡ crossed_job.effect_boundary_at)
    × (succeeded_job.effect_boundary_token ≡ crossed_job.effect_boundary_token)
boundary_final_example = boundary_final outcome crossed_job-IsSound refl

outcome_final_example : (◌≡◌ {A = ℕ} 0 0) × SameOutcome claimed_late retained_job
outcome_final_example = outcome_final confirmed claimed_late-IsSound claimed_late_ended

Write-IsSound_example : IsSound running_job
Write-IsSound_example = Write-IsSound starts_job (omega arith) queued_job-IsSound

Write-IsPermitted_example : IsPermitted crossed_job succeeded_job
Write-IsPermitted_example = Write-IsPermitted ends_job (omega arith) crossed_job-IsSound

Write_refines_example : may_step 3 (executing 1 true) (ended 1 State.succeeded) ≡ true
Write_refines_example = Write_refines ends_job crossed_job-IsSound

-- The worker asks for a retry, and another one claims the job.
abbrev retried_job : Job
retried_job = record running_job {
  state = retrying;
  eligible_at = 180;
  latest_error_category = some execution_lost;
  execution_token = none;
  execution_started_at = none;
  execution_deadline = none;
  updated_at = 150;
}

abbrev second_run : Job
second_run = record retried_job {
  state = running;
  attempt_count = 2;
  execution_started_at = some 200;
  execution_deadline = some 300;
  execution_token = some token_two;
  updated_at = 200;
}

reclaims_job : Write 200 retried_job second_run
unfolding resolve_row
reclaims_job =
    resolves 1 "diagnostic" accepts_all token_two
      (resolution ResolutionKind.executable second_run none) accepts_all-Positive token_two_length
      refl

reclaimed : History retried_job second_run 1
unfolding reclaims_job
reclaimed = next 200 0 1 here reclaims_job (omega arith) refl

reclaimed-IsUnused : IsUnused token_one reclaimed
unfolding reclaims_job reclaimed
reclaimed-IsUnused = (tt, λ h. other_token (sym h))

apply_outcome_once_example : apply_outcome_row token_one (final success none) 205 second_run ≡ none
unfolding apply_outcome_row
apply_outcome_once_example =
    apply_outcome_once token_one (retry (some execution_lost) 30) (final success none) 150 205
      running_job reclaimed refl reclaimed-IsUnused
