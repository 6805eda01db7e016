-- ===== src/Tests/Rows.antt =====
-- One diagnostic job on its way: queued, claimed by a publisher, running, past its effect boundary,
-- succeeded and confirmed.
use Prim.Native.String.{count}
use bike_doc.Prelude.{false, ◌≢◌, str_eq, eq_iff, String, none, some, [], ◌∷◌, ◌≡◌, refl, arith}
use bike_doc.Jobs.Row.{Job, JobRecord, queued, running, succeeded}
use bike_doc.Jobs.Values.{ExecutionPolicy, PublicationClaim}
use bike_doc.Jobs.Validity.{IsSound}
use bike_doc.Jobs.Recovery.{DiagnosticExecution}

abbrev pub token_one : String
token_one = "11111111111111111111111111111111"

abbrev pub token_two : String
token_two = "22222222222222222222222222222222"

abbrev pub instruction : JobRecord
instruction = record {
  job_kind = "diagnostic_turn";
  workload_class = "diagnostic";
  input_version = 1;
  input = ("turn_id", "turn_1") ∷ [];
  deduplication_key = "turn_1";
  attempt_limit = 3;
}

abbrev pub queued_job : Job
queued_job = record {
  id = "job_1";
  job_kind = "diagnostic_turn";
  workload_class = "diagnostic";
  input_version = 1;
  input = ("turn_id", "turn_1") ∷ [];
  deduplication_key = "turn_1";
  state = queued;
  eligible_at = 100;
  attempt_count = 0;
  attempt_limit = 3;
  desired_generation = 1;
  confirmed_generation = 0;
  publication_eligible_at = 100;
  publication_claim_token = none;
  publication_claim_generation = none;
  publication_claim_until = none;
  publication_confirmed_at = none;
  transport_error = none;
  execution_started_at = none;
  execution_deadline = none;
  execution_token = none;
  effect_boundary_token = none;
  effect_boundary_at = none;
  first_started_at = none;
  terminal_at = none;
  latest_error_category = none;
  created_at = 100;
  updated_at = 100;
}

abbrev pub running_job : Job
running_job = record queued_job {
  state = running;
  attempt_count = 1;
  execution_started_at = some 110;
  execution_deadline = some 210;
  execution_token = some token_one;
  first_started_at = some 110;
  updated_at = 110;
}

abbrev pub crossed_job : Job
crossed_job = record running_job {
  effect_boundary_token = some token_one;
  effect_boundary_at = some 120;
}

abbrev pub succeeded_job : Job
succeeded_job = record crossed_job {
  state = succeeded;
  execution_started_at = none;
  execution_deadline = none;
  execution_token = none;
  terminal_at = some 150;
  updated_at = 150;
}

abbrev pub retained_job : Job
retained_job = record succeeded_job {
  confirmed_generation = 1;
  publication_confirmed_at = some 160;
  updated_at = 160;
}

abbrev pub one_hundred : ExecutionPolicy
one_hundred = record { hard_duration = 100 }

abbrev pub first_claim : PublicationClaim
first_claim = record {
  job_id = "job_1";
  workload_class = "diagnostic";
  generation = 1;
  token = token_two;
  until = 160;
}

abbrev pub claimed_job : Job
claimed_job = record queued_job {
  publication_claim_token = some token_two;
  publication_claim_generation = some 1;
  publication_claim_until = some 160;
  updated_at = 105;
}

abbrev pub lost_execution : DiagnosticExecution
lost_execution = record { job_id = "job_1"; token = token_one; deadline = 210 }

pub token_one_length : count token_one ≡ 32
token_one_length = refl

pub token_two_length : count token_two ≡ 32
token_two_length = refl

differ : str_eq token_one token_two ≡ false
differ = refl

pub other_token : token_one ≢ token_two
other_token = ground (arith, differ, eq_iff token_one token_two)

pub queued_job-IsSound : IsSound queued_job
queued_job-IsSound = ground arith

pub claimed_job-IsSound : IsSound claimed_job
claimed_job-IsSound = ground arith

pub running_job-IsSound : IsSound running_job
running_job-IsSound = ground (arith, token_one_length)

pub crossed_job-IsSound : IsSound crossed_job
crossed_job-IsSound = ground (arith, token_one_length)

pub succeeded_job-IsSound : IsSound succeeded_job
succeeded_job-IsSound = ground (arith, token_one_length)

-- Its message was confirmed, and lost.
abbrev pub published_job : Job
published_job = record queued_job {
  confirmed_generation = 1;
  publication_confirmed_at = some 130;
  updated_at = 130;
}

pub published_job-IsSound : IsSound published_job
published_job-IsSound = ground arith
