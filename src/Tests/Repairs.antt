-- ===== src/Tests/Repairs.antt =====
-- A turn accepted in a new session, the retry of its request, and the failure of its job.
use bike_doc.Prelude.{◌≤◌, String, Bool, true, false, ◌≡◌, none, some, [], ◌∷◌, refl, arith}
use bike_doc.Jobs.Row.{succeeded, Job, JobInput, State, is_terminal, attempts_exhausted}
use bike_doc.Jobs.Values.{final, death, from_row}
use bike_doc.Jobs.Delivery.{apply_outcome_row}
use bike_doc.Jobs.Validity.{IsSound}
use bike_doc.Jobs.Table.{lock}
use bike_doc.Safety.Flags.{diagnostic}
use bike_doc.Repairs.Model.{Status, awaiting_user, created, Repair, Turn, turn_started, Product}
use bike_doc.Repairs.Request.{TurnRequest, Acceptance, Accepted, accepted}
use bike_doc.Repairs.Accept.{acceptance_snapshot, accept_turn}
use bike_doc.Repairs.Accept.Durable.{IsDurable, accept_turn-IsDurable, accept_turn_replays}
use bike_doc.Repairs.Terminalize.{
  apply_product_outcome, turn_of, append_diagnostic_completion, is_completed,
  recover_product_expired,
}
use bike_doc.Repairs.Terminalize.Recovers.{IsSettled, state_after, diagnostic_expired_recovers}
use bike_doc.Jobs.Recovery.{expired, is_candidate}
use bike_doc.Workers.Policy.{diagnostic_expired}
use bike_doc.Repairs.Terminalize.Completes.{completions}
use bike_doc.Repairs.Terminalize.Outcome.{apply_product_outcome_completes}
use bike_doc.Tests.Rows.{
  token_one, token_one_length, queued_job, running_job, crossed_job, crossed_job-IsSound,
}

abbrev session : Repair
session = record {
  id = "session_1";
  phase = diagnostic;
  status = created;
  current_input_request = none;
  latest_event_sequence = 0;
  updated_at = 50;
}

abbrev before : Product
before = record { repair = session; turns = []; events = []; runs = []; jobs = [] }

abbrev request : TurnRequest
request = record {
  client_turn_id = "client_1";
  artifact_ids = [];
  responds_to_input_request_id = none;
}

abbrev first_try : Acceptance
first_try = record {
  request_hash = "hash_1";
  get_artifact = λ id. none;
  phase_session_id = "phase_1";
  turn_id = "turn_1";
  diagnostic_job_id = "job_1";
  profile_job_id = "job_2";
  profile_deduplication_key = "key_1";
  now = 100;
  diagnostic_attempt_limit = 3;
  profile_max_attempts = 3;
  profile_extractor_version = "v1";
  image_analysis_mode = "native";
}

abbrev second_try : Acceptance
second_try = record first_try { turn_id = "turn_2"; diagnostic_job_id = "job_3"; now = 200 }

abbrev first_turn : Turn
first_turn = record {
  id = "turn_1";
  repair_session_id = "session_1";
  repair_phase_session_id = "phase_1";
  client_turn_id = "client_1";
  request_hash = "hash_1";
  phase = diagnostic;
  artifact_ids = [];
  responds_to_input_request_id = none;
  start_event_sequence = 1;
  image_analysis_mode = none;
  created_at = 100;
}

abbrev started_session : Repair
started_session = record session {
  status = Status.running;
  latest_event_sequence = 1;
  updated_at = 100;
}

abbrev after : Product
after = record {
  repair = started_session;
  turns = first_turn ∷ [];
  events =
      record { sequence = 1; turn_id = some "turn_1"; content = turn_started "turn_1" diagnostic }
      ∷ [];
  runs = [];
  jobs = queued_job ∷ [];
}

abbrev answer : Accepted
answer = record { turn = first_turn; session = started_session; is_replay = false }

accepts_turn :
    accept_turn first_try request (some before) (some before) ≡ (accepted answer, some after)
unfolding accept_turn
accepts_turn = refl

accept_turn-IsDurable_example : IsDurable first_try request before after first_turn
accept_turn-IsDurable_example =
    accept_turn-IsDurable first_try request before before after answer accepts_turn refl

accept_turn_replays_example : accept_turn second_try request (some after) (some after) ≡ (
  accepted (record {
    turn = first_turn;
    session = acceptance_snapshot started_session first_turn;
    is_replay = true;
  }),
  some after,
)
accept_turn_replays_example =
    accept_turn_replays first_try second_try request before before after answer accepts_turn refl
      refl

-- The only execution is lost for good.
abbrev last_running : Job
last_running = record running_job { attempt_count = 3 }

abbrev dead_job : Job
dead_job = record last_running {
  state = State.dead;
  execution_started_at = none;
  execution_deadline = none;
  execution_token = none;
  terminal_at = some 150;
  latest_error_category = some attempts_exhausted;
  updated_at = 150;
}

abbrev running_product : Product
running_product = record after { jobs = last_running ∷ [] }

abbrev any_id : String → Bool
any_id id = true

abbrev any_input : JobInput → Bool
any_input input = true

fails_job :
    apply_outcome_row token_one (final death (some attempts_exhausted)) 150 last_running
    ≡ some dead_job
unfolding apply_outcome_row
fails_job = refl

finds_turn : turn_of any_id dead_job running_product ≡ some first_turn
unfolding turn_of
finds_turn = refl

last_running-IsSound : IsSound last_running
last_running-IsSound = ground (arith, token_one_length)

apply_product_outcome_completes_example :
    (stored : Job) × (p' : Product) × (apply_product_outcome any_id any_input "job_1" token_one
        (final death (some attempts_exhausted))
        150
        running_product
      ≡ some (true, p'))
    × (completions "turn_1" p'.events ≡ 1)
    × (lock "job_1" p'.jobs ≡ some stored)
    × (is_terminal stored.state ≡ true)
    × IsSound stored
unfolding lock
apply_product_outcome_completes_example =
    apply_product_outcome_completes any_id any_input "job_1" token_one
      (final death (some attempts_exhausted)) 150 running_product last_running dead_job first_turn
      last_running-IsSound (omega arith) refl fails_job refl finds_turn (omega arith)

-- The turn is completed, and its worker is lost before the job is settled.
abbrev crossed_product : Product
crossed_product =
    append_diagnostic_completion "turn_1" awaiting_user 130 false
      (record after { jobs = crossed_job ∷ [] })

finds_crossed : turn_of any_id crossed_job crossed_product ≡ some first_turn
unfolding turn_of append_diagnostic_completion
finds_crossed = refl

completed_once : completions "turn_1" crossed_product.events ≤ 1
unfolding append_diagnostic_completion
completed_once = omega arith

expired_crossed : is_candidate expired 240 250 crossed_job ≡ true
unfolding is_candidate
expired_crossed = refl

holds_crossed : lock "job_1" crossed_product.jobs ≡ some crossed_job
unfolding lock append_diagnostic_completion
holds_crossed = refl

diagnostic_expired_recovers_example :
    (stored : Job) × (p' : Product) × (recover_product_expired any_id any_input "job_1" token_one
        (diagnostic_expired 60 (from_row crossed_job))
        250
        crossed_product
      ≡ some (true, p'))
    × (lock "job_1" p'.jobs ≡ some stored)
    × IsSettled first_turn crossed_job crossed_product stored p'
diagnostic_expired_recovers_example =
    diagnostic_expired_recovers any_id any_input "job_1" token_one 60 240 250 crossed_product
      crossed_job first_turn crossed_job-IsSound (omega arith) holds_crossed refl refl
      expired_crossed finds_crossed completed_once

-- The completed turn makes its job a success, though the execution had crossed the boundary.
success_kept : state_after crossed_job (is_completed "turn_1" crossed_product.events) ≡ succeeded
unfolding is_completed append_diagnostic_completion
success_kept = refl
