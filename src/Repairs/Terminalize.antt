-- ===== src/Repairs/Terminalize.antt =====
-- How the end of a job reaches the product: ProfileJobRepository (repositories/profile_jobs.py),
-- DiagnosticJobRepository (repositories/diagnostic_jobs.py) and append_diagnostic_completion
-- (repositories/diagnostic_terminalization.py), in the transaction of the job. `is_turn_id` is the
-- pattern of a turn's id, and `is_profile_input` the validation of a stored profile instruction.
pub mod Completes
pub mod Outcome
pub mod Recovers
use bike_doc.Prelude.{
  ℕ, ◌+◌, ◌-◌, String, Bool, true, false, not, ◌&&◌, ◌||◌, Option, none, some, List, [], ◌∷◌, ◌++◌,
  ltb, ◌==◌, str_eq, text_is, is_some, if◌then◌else◌, drop, length,
}
use bike_doc.Jobs.Row.{
  Job, JobInput, State, succeeded, interrupted, dead, retrying, JobError, execution_lost,
  attempts_exhausted,
}
use bike_doc.Jobs.Values.{JobOutcome, is_success}
use bike_doc.Jobs.Delivery.{apply_outcome_row}
use bike_doc.Jobs.Recovery.{recover_expired_row}
use bike_doc.Jobs.Table.{Table, lock, flush}
use bike_doc.Safety.Flags.{Phase, phase_eq, diagnostic}
use bike_doc.Repairs.Model.{
  Status, awaiting_user, Repair, Turn, SessionEvent, EventData, processing_failed, turn_completed,
  RunStatus, started, retryable_failure, abstained, exhausted, terminal_failure, Run, Product,
  get_turn,
}

-- append_diagnostic_completion
unfoldable pub append_diagnostic_completion : String → Status → ℕ → Bool → Product → Product
append_diagnostic_completion turn status now processing_error p =
    let repair : Repair = record p.repair { status = status; updated_at = now } in
    let last : ℕ = repair.latest_event_sequence + (if processing_error then 1 else 0) in
    let done : Repair = record repair { latest_event_sequence = last + 1 } in
    let error : List SessionEvent =
      if processing_error
      then record { sequence = last; turn_id = some turn; content = processing_failed } ∷ []
      else [] in
    record p {
      repair = done;
      events =
          p.events
          ++ (error
              ++ record {
                sequence = last + 1;
                turn_id = some turn;
                content = turn_completed turn done;
              }
                ∷ []);
    }

abbrev pub is_completion : EventData → Bool
is_completion (turn_completed turn r) = true
is_completion _ = false

-- An event of the turn, of type turn.completed
abbrev pub completes : String → SessionEvent → Bool
completes turn e = text_is e.turn_id turn && is_completion e.content

unfoldable pub is_completed : String → List SessionEvent → Bool
is_completed turn [] = false
is_completed turn (e ∷ es) = completes turn e || is_completed turn es

-- A field of the stored instruction
unfoldable pub get_input : String → JobInput → Option String
get_input key [] = none
get_input key ((k, v) ∷ xs) = if str_eq k key then some v else get_input key xs

-- Past the boundary a dead job is an interrupted one.
unfoldable pub interrupted_if_crossed : Job → Job
interrupted_if_crossed row = elim row.state [
  | dead ↦
      if is_some row.effect_boundary_at
      then record row { state = interrupted; latest_error_category = some execution_lost }
      else row
  | _ ↦ row
]

-- _terminalize, once the turn is found; `none` is the failed assertion of a missing terminal_at.
unfoldable pub terminalize_turn : Turn → Job → Product → Option (Job × Product)
unfolding interrupted_if_crossed is_completed append_diagnostic_completion
terminalize_turn turn row p =
    let row' : Job = interrupted_if_crossed row in
    if is_completed turn.id p.events
    then some (record row' { state = succeeded; latest_error_category = none }, p)
    else elim row'.terminal_at [
      | none ↦ none
      | some at ↦ some (row', append_diagnostic_completion turn.id awaiting_user at true p)
    ]

-- The diagnostic turn that the instruction of a job names, if there is one.
unfoldable pub turn_of : (String → Bool) → Job → Product → Option Turn
unfolding get_input get_turn
turn_of is_turn_id row p = elim (get_input "turn_id" row.input) [
  | none ↦ none
  | some id ↦
      if is_turn_id id
      then elim (get_turn id p.turns) [
        | none ↦ none
        | some t ↦ if phase_eq t.phase diagnostic then some t else none
      ]
      else none
]

-- _terminalize
unfoldable pub terminalize : (String → Bool) → Job → Product → Option (Job × Product)
unfolding turn_of terminalize_turn
terminalize is_turn_id row p = elim (turn_of is_turn_id row p) [
  | none ↦ some (row, p)
  | some t ↦ terminalize_turn t row p
]

abbrev pub is_open_run : RunStatus → Bool
is_open_run started = true
is_open_run retryable_failure = true
is_open_run _ = false

abbrev pub is_exhausted : Option JobError → Bool
is_exhausted (some attempts_exhausted) = true
is_exhausted _ = false

-- The status of a run after a transition of its job
unfoldable pub run_status : Job → RunStatus
run_status row = elim row.state [
  | retrying ↦ retryable_failure
  | succeeded ↦ abstained
  | _ ↦ if is_exhausted row.latest_error_category then exhausted else terminal_failure
]

-- `[-32:]`
abbrev pub last_32 : List RunStatus → List RunStatus
last_32 xs = drop (length xs - 32) xs

unfoldable pub settle_run : Job → Run → Run
unfolding run_status
settle_run row run =
    if is_open_run run.status
    then record run {
      status = run_status row;
      attempt_count = row.attempt_count;
      retry_count = row.attempt_count - 1;
      max_attempts = row.attempt_limit;
      failure_class = some "job";
      failure_code = row.latest_error_category;
      completed_at = row.terminal_at;
      lifecycle_outcomes = last_32 (run.lifecycle_outcomes ++ run_status row ∷ []);
    }
    else run

abbrev pub is_run_of : JobInput → Run → Bool
is_run_of input run =
    text_is (get_input "turn_id" input) run.turn_id
    && text_is (get_input "inference_schema_version" input) run.inference_schema_version
    && text_is (get_input "extractor_version" input) run.extractor_version

-- The first run of the instruction is settled.
unfoldable pub settle_runs : Job → List Run → List Run
unfolding settle_run get_input
settle_runs row [] = []
settle_runs row (r ∷ rs) =
    if is_run_of row.input r then settle_run row r ∷ rs else r ∷ settle_runs row rs

-- ProfileJobRepository._persist_transition, before the flush
unfoldable pub persist_profile : (JobInput → Bool) → Job → Product → Product
unfolding settle_runs
persist_profile is_profile_input row p =
    if str_eq row.job_kind "profile_inference"
      && (row.input_version == 1)
      && is_profile_input row.input
    then record p { runs = settle_runs row p.runs }
    else p

abbrev pub is_failed : State → Bool
is_failed dead = true
is_failed interrupted = true
is_failed _ = false

-- The transition of the product that a job's row makes, and the row that is stored.
unfoldable pub transition :
    (String → Bool) → (JobInput → Bool) → Job → Product → Option (Job × Product)
unfolding terminalize persist_profile
transition is_turn_id is_profile_input row p =
    let ended : Option (Job × Product) =
      if str_eq row.job_kind "diagnostic_turn" && is_failed row.state
      then terminalize is_turn_id row p
      else some (row, p) in
    elim ended [
      | none ↦ none
      | some (row', p') ↦ some (row', persist_profile is_profile_input row' p')
    ]

-- _persist_transition of DiagnosticJobRepository
unfoldable pub persist_transition :
    (String → Bool) → (JobInput → Bool) → Job → Product → Option Product
unfolding transition flush
persist_transition is_turn_id is_profile_input row p =
    elim (transition is_turn_id is_profile_input row p) [
      | none ↦ none
      | some (row', p') ↦ some (record p' { jobs = flush row'.id row' p'.jobs })
    ]

-- apply_outcome of DiagnosticJobRepository: whether it is accepted, and the product.
unfoldable pub apply_product_outcome :
    (String → Bool)
    → (JobInput → Bool)
    → String
    → String
    → JobOutcome
    → ℕ
    → Product
    → Option (Bool × Product)
unfolding lock apply_outcome_row persist_transition
apply_product_outcome is_turn_id is_profile_input id token o now p = elim (lock id p.jobs) [
  | none ↦ some (false, p)
  | some row ↦ elim (apply_outcome_row token o now row) [
    | none ↦ some (false, p)
    | some row' ↦ elim (persist_transition is_turn_id is_profile_input row' p) [
      | none ↦ none
      | some p' ↦ some (true, p')
    ]
  ]
]

-- recover_expired of DiagnosticJobRepository; `none` is the ValueError for an outcome of success, or
-- a failed assertion.
unfoldable pub recover_product_expired :
    (String → Bool)
    → (JobInput → Bool)
    → String
    → String
    → JobOutcome
    → ℕ
    → Product
    → Option (Bool × Product)
unfolding lock recover_expired_row persist_transition
recover_product_expired is_turn_id is_profile_input id token o now p = elim (lock id p.jobs) [
  | none ↦ if is_success o then none else some (false, p)
  | some row ↦ elim (recover_expired_row token o now row) [
    | none ↦ none
    | some none ↦ some (false, p)
    | some (some row') ↦ elim (persist_transition is_turn_id is_profile_input row' p) [
      | none ↦ none
      | some p' ↦ some (true, p')
    ]
  ]
]
