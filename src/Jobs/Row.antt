-- ===== src/Jobs/Row.antt =====
-- The background_jobs table: apps/api/src/bike_doc_api/models/background_job.py, and the value
-- types of repositories/background_jobs.py. A time is a number of microseconds.
use bike_doc.Prelude.{ℕ, String, Bool, true, false, Option, none, List}

pub data State : Type 0 where
  queued running retrying succeeded interrupted dead : State

pub data JobError : Type 0 where
  definition_unknown version_unsupported input_invalid attempts_exhausted : JobError
  provider_unavailable execution_timeout execution_lost permanent_failure : JobError

pub data TransportError : Type 0 where
  unavailable timeout rejected : TransportError

-- The stored instruction: its fields in the order in which JSONB keeps them.
abbrev pub JobInput : Type 0
JobInput = List (String × String)

pub record Job : Type 0 where
  pub id : String
  pub job_kind : String
  pub workload_class : String
  pub input_version : ℕ
  pub input : JobInput
  pub deduplication_key : String
  pub state : State
  pub eligible_at : ℕ
  pub attempt_count : ℕ
  pub attempt_limit : ℕ
  pub desired_generation : ℕ
  pub confirmed_generation : ℕ
  pub publication_eligible_at : ℕ
  pub publication_claim_token : Option String
  pub publication_claim_generation : Option ℕ
  pub publication_claim_until : Option ℕ
  pub publication_confirmed_at : Option ℕ
  pub transport_error : Option TransportError
  pub execution_started_at : Option ℕ
  pub execution_deadline : Option ℕ
  pub execution_token : Option String
  pub effect_boundary_token : Option String
  pub effect_boundary_at : Option ℕ
  pub first_started_at : Option ℕ
  pub terminal_at : Option ℕ
  pub latest_error_category : Option JobError
  pub created_at : ℕ
  pub updated_at : ℕ

abbrev pub is_terminal : State → Bool
is_terminal succeeded = true
is_terminal interrupted = true
is_terminal dead = true
is_terminal _ = false

abbrev pub is_running : State → Bool
is_running running = true
is_running _ = false

-- `state in {"queued", "retrying"}`
abbrev pub is_waiting : State → Bool
is_waiting queued = true
is_waiting retrying = true
is_waiting _ = false

-- JobRecord: an immutable definition that a producer supplies.
pub record JobRecord : Type 0 where
  pub job_kind : String
  pub workload_class : String
  pub input_version : ℕ
  pub input : JobInput
  pub deduplication_key : String
  pub attempt_limit : ℕ

-- The row that `record` inserts: the supplied columns, and the server defaults of the others.
unfoldable pub new_job : String → ℕ → JobRecord → Job
new_job id now d = record {
  id = id;
  job_kind = d.job_kind;
  workload_class = d.workload_class;
  input_version = d.input_version;
  input = d.input;
  deduplication_key = d.deduplication_key;
  state = queued;
  eligible_at = now;
  attempt_count = 0;
  attempt_limit = d.attempt_limit;
  desired_generation = 1;
  confirmed_generation = 0;
  publication_eligible_at = now;
  publication_claim_token = none;
  publication_claim_generation = none;
  publication_claim_until = none;
  publication_confirmed_at = none;
  transport_error = none;
  execution_started_at = none;
  execution_deadline = none;
  execution_token = none;
  effect_boundary_token = none;
  effect_boundary_at = none;
  first_started_at = none;
  terminal_at = none;
  latest_error_category = none;
  created_at = now;
  updated_at = now;
}
