-- ===== src/Jobs/Values.antt =====
-- The frozen values of apps/api/src/bike_doc_api/repositories/background_jobs.py.
use bike_doc.Prelude.{
  ℕ, ◌*◌, String, Bool, true, false, ◌&&◌, Option, none, some, ltb, leb, if◌then◌else◌,
}
use bike_doc.Jobs.Row.{Job, JobInput, State, JobError, succeeded, interrupted, dead, retrying}

-- JobSnapshot: the copy of a row that leaves the transaction.
pub record JobSnapshot : Type 0 where
  pub id : String
  pub job_kind : String
  pub workload_class : String
  pub input_version : ℕ
  pub input : JobInput
  pub state : State
  pub attempt_count : ℕ
  pub attempt_limit : ℕ
  pub desired_generation : ℕ
  pub confirmed_generation : ℕ
  pub eligible_at : ℕ
  pub execution_token : Option String
  pub execution_deadline : Option ℕ
  pub effect_boundary_at : Option ℕ
  pub latest_error_category : Option JobError
  pub created_at : ℕ

abbrev pub from_row : Job → JobSnapshot
from_row row = record {
  id = row.id;
  job_kind = row.job_kind;
  workload_class = row.workload_class;
  input_version = row.input_version;
  input = row.input;
  state = row.state;
  attempt_count = row.attempt_count;
  attempt_limit = row.attempt_limit;
  desired_generation = row.desired_generation;
  confirmed_generation = row.confirmed_generation;
  eligible_at = row.eligible_at;
  execution_token = row.execution_token;
  execution_deadline = row.execution_deadline;
  effect_boundary_at = row.effect_boundary_at;
  latest_error_category = row.latest_error_category;
  created_at = row.created_at;
}

abbrev pub seven_days : ℕ
seven_days = 7 * 86400 * 1000000

-- _bounded_duration: whether the check lets the duration pass.
unfoldable pub bounded_duration : ℕ → Bool
bounded_duration d = ltb 0 d && leb d seven_days

-- _batch_limit
unfoldable pub batch_limit : ℕ → Bool
batch_limit n = leb 1 n && leb n 1000

-- ExecutionPolicy, and the answer of a definition's validator.
pub record ExecutionPolicy : Type 0 where
  pub hard_duration : ℕ

pub data Definition : Type 0 where
  policy : ExecutionPolicy → Definition
  refused : JobError → Definition

-- `ExecutionPolicy.__post_init__`; `none` is the ValueError.
unfoldable pub execution_policy : ℕ → Option ExecutionPolicy
unfolding bounded_duration
execution_policy d = if bounded_duration d then some (record { hard_duration = d }) else none

-- JobOutcome: the combinations that its `__post_init__` accepts. Only a retry has a delay.
pub data Final : Type 0 where
  success interruption death : Final

pub data JobOutcome : Type 0 where
  final : Final → Option JobError → JobOutcome
  retry : Option JobError → ℕ → JobOutcome

abbrev pub final_state : Final → State
final_state success = succeeded
final_state interruption = interrupted
final_state death = dead

abbrev pub outcome_state : JobOutcome → State
outcome_state (final f e) = final_state f
outcome_state (retry e d) = retrying

abbrev pub is_retry : JobOutcome → Bool
is_retry (final f e) = false
is_retry (retry e d) = true

abbrev pub is_success : JobOutcome → Bool
is_success (final success e) = true
is_success _ = false

-- `JobOutcome.__post_init__` on the raw fields; `none` is the ValueError.
unfoldable pub job_outcome : State → Option JobError → Option ℕ → Option JobOutcome
unfolding bounded_duration
job_outcome retrying e none = none
job_outcome retrying e (some d) = if bounded_duration d then some (retry e d) else none
job_outcome succeeded e none = some (final success e)
job_outcome interrupted e none = some (final interruption e)
job_outcome dead e none = some (final death e)
job_outcome _ e d = none

pub record PublicationClaim : Type 0 where
  pub job_id : String
  pub workload_class : String
  pub generation : ℕ
  pub token : String
  pub until : ℕ

pub data ResolutionKind : Type 0 where
  executable terminal stale early running recovery_wait : ResolutionKind
  prohibited missing definition_failure exhausted : ResolutionKind

pub record DeliveryResolution : Type 0 where
  pub kind : ResolutionKind
  pub job : Option JobSnapshot
  pub wait_until : Option ℕ
