-- ===== src/Repairs/Producers.antt =====
-- The producers of the jobs of a turn: BackgroundJobService of services/background_jobs.py, and their
-- calls in accept_turn (services/turns.py). The ids are drawn by the service and have their pattern.
pub mod Stored
use bike_doc.Prelude.{
  ℕ, ◌+◌, String, Bool, true, false, not, ◌&&◌, ◌||◌, Option, none, some, List, [], ◌∷◌, ◌++◌, ltb,
  leb, str_eq, text_is, if◌then◌else◌, or_else,
}
use bike_doc.Jobs.Row.{JobRecord}
use bike_doc.Jobs.Table.{Table, RecordResult, recorded, definition_conflict, record_job}
use bike_doc.Safety.Flags.{Phase, phase_eq, diagnostic}
use bike_doc.Repairs.Model.{
  Status, created, awaiting_user, Repair, Turn, SessionEvent, turn_started, Product,
  get_by_client_turn_id,
}
use bike_doc.Repairs.Request.{
  TurnRequest, Acceptance, AcceptError, validation_failed, server_error, has_images,
}

-- The instruction of record_diagnostic_turn
unfoldable pub diagnostic_record : String → ℕ → JobRecord
diagnostic_record turn limit = record {
  job_kind = "diagnostic_turn";
  workload_class = "diagnostic";
  input_version = 1;
  input = ("turn_id", turn) ∷ [];
  deduplication_key = turn;
  attempt_limit = limit;
}

-- The instruction of record_profile_inference
unfoldable pub profile_record : String → String → String → ℕ → JobRecord
profile_record turn version key limit = record {
  job_kind = "profile_inference";
  workload_class = "profile_inference";
  input_version = 1;
  input =
      ("turn_id", turn)
      ∷ ("inference_schema_version", "bike_profile_inference.v1")
      ∷ ("extractor_version", version)
      ∷ [];
  deduplication_key = key;
  attempt_limit = limit;
}

-- A producer's answer: the table, or the error that accept_turn makes of what it raises. A
-- ValueError is a ValidationAppError, a JobDefinitionConflictError a ServerError.
pub data Produced : Type 0 where
  stored : Table → Produced
  raised : AcceptError → Produced

abbrev pub produced : RecordResult × Table → Produced
produced (recorded s, t) = stored t
produced (definition_conflict, t) = raised server_error

unfoldable pub record_diagnostic_turn : String → ℕ → String → ℕ → Table → Produced
unfolding diagnostic_record record_job
record_diagnostic_turn id now turn limit t =
    if leb 1 limit && leb limit 100
    then produced (record_job id now (diagnostic_record turn limit) t)
    else raised validation_failed

unfoldable pub record_profile_inference :
    String → ℕ → String → String → String → ℕ → Table → Produced
unfolding profile_record record_job
record_profile_inference id now turn version key limit t =
    if leb 1 limit && leb limit 5
    then produced (record_job id now (profile_record turn version key limit) t)
    else raised validation_failed

-- Both producers of one turn; the profile job only with images.
unfoldable pub record_turn_jobs : Acceptance → TurnRequest → Table → Produced
unfolding record_diagnostic_turn record_profile_inference
record_turn_jobs a request t =
    elim (record_diagnostic_turn a.diagnostic_job_id a.now a.turn_id a.diagnostic_attempt_limit t) [
      | raised e ↦ raised e
      | stored t' ↦
          if has_images request.artifact_ids
          then record_profile_inference a.profile_job_id a.now a.turn_id a.profile_extractor_version
              a.profile_deduplication_key a.profile_max_attempts t'
          else stored t'
    ]
