-- ===== src/Tests/Jobs.antt =====
-- What is proved of the operations on jobs, at the rows of one job.
use bike_doc.Prelude.{◌+◌, ◌≡◌, refl, none, some, arith}
use bike_doc.Jobs.Row.{Job, succeeded, retrying}
use bike_doc.Jobs.Values.{success, final, retry, ResolutionKind, DeliveryResolution}
use bike_doc.Jobs.Delivery.{resolve_row, apply_outcome_row, claim_execution}
use bike_doc.Jobs.Delivery.Fencing.{claim_fences, recover_excludes_apply}
use bike_doc.Jobs.Delivery.Answers.{due_job_succeeds}
use bike_doc.Jobs.Recovery.{recover_expired_row}
use bike_doc.Tests.Rows.{
  token_one, token_two, queued_job, running_job, one_hundred, queued_job-IsSound, other_token,
}
use bike_doc.Tests.History.{accepts_all}

claim_fences_example :
    apply_outcome_row token_one
      (final success none)
      240
      (claim_execution queued_job one_hundred 220 token_two)
    ≡ none
claim_fences_example =
    claim_fences token_one token_two one_hundred (final success none) 220 240 queued_job other_token

lost_job : Job
lost_job = record running_job {
  state = retrying;
  eligible_at = 310;
  execution_started_at = none;
  execution_deadline = none;
  execution_token = none;
  updated_at = 210;
  desired_generation = 2;
  publication_eligible_at = 310;
}

recovers_lost :
    recover_expired_row token_one (retry none 100) 210 running_job ≡ some (some lost_job)
unfolding recover_expired_row lost_job
recovers_lost = refl

recover_excludes_apply_example :
    apply_outcome_row token_one (final success none) 210 running_job ≡ none
recover_excludes_apply_example =
    recover_excludes_apply token_one token_one (retry none 100) (final success none) 210 210
      running_job lost_job (omega arith) recovers_lost

due_job_succeeds_example :
    (r : DeliveryResolution) × (j' : Job) × (j'' : Job) × (resolve_row 1 "diagnostic" accepts_all
        110 token_one queued_job
      ≡ some (r, j'))
    × (r.kind ≡ ResolutionKind.executable)
    × (apply_outcome_row token_one (final success none) 150 j' ≡ some j'')
    × (j''.state ≡ succeeded)
    × (j''.attempt_count ≡ 0 + 1)
due_job_succeeds_example =
    due_job_succeeds queued_job accepts_all one_hundred 110 150 token_one queued_job-IsSound refl
      (omega arith) (omega arith) refl (omega arith)
