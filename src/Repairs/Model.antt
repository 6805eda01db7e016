-- ===== src/Repairs/Model.antt =====
-- One repair session with its turns, events, inference runs and jobs: the rows of
-- models/repair_session.py, models/event.py and models/profile_inference.py that the acceptance of a
-- turn and the end of a job read and write.
use bike_doc.Prelude.{ℕ, String, Option, none, some, List, [], ◌∷◌, str_eq, if◌then◌else◌}
use bike_doc.Jobs.Row.{JobError}
use bike_doc.Jobs.Table.{Table}
use bike_doc.Safety.Flags.{Phase}

-- RepairSessionStatus
pub data Status : Type 0 where
  created running awaiting_user awaiting_decision blocked_safety completed failed cancelled : Status

pub record Repair : Type 0 where
  pub id : String
  pub phase : Phase
  pub status : Status
  pub current_input_request : Option String
  pub latest_event_sequence : ℕ
  pub updated_at : ℕ

pub record Turn : Type 0 where
  pub id : String
  pub repair_session_id : String
  pub repair_phase_session_id : String
  pub client_turn_id : String
  pub request_hash : String
  pub phase : Phase
  pub artifact_ids : List String
  pub responds_to_input_request_id : Option String
  pub start_event_sequence : ℕ
  pub image_analysis_mode : Option String
  pub created_at : ℕ

-- The type of an event with its validated data. The diagnostic processing error is one fixed text.
pub data EventData : Type 0 where
  turn_started : String → Phase → EventData
  processing_failed : EventData
  turn_completed : String → Repair → EventData
  input_requested : String → EventData

pub record SessionEvent : Type 0 where
  pub sequence : ℕ
  pub turn_id : Option String
  pub content : EventData

-- ProfileInferenceStatus
pub data RunStatus : Type 0 where
  started completed abstained retryable_failure terminal_failure exhausted retried : RunStatus
  skipped : RunStatus

-- ProfileInferenceRun
pub record Run : Type 0 where
  pub turn_id : String
  pub inference_schema_version : String
  pub extractor_version : String
  pub status : RunStatus
  pub attempt_count : ℕ
  pub retry_count : ℕ
  pub max_attempts : ℕ
  pub failure_class : Option String
  pub failure_code : Option JobError
  pub completed_at : Option ℕ
  pub lifecycle_outcomes : List RunStatus

pub record Product : Type 0 where
  pub repair : Repair
  pub turns : List Turn
  pub events : List SessionEvent
  pub runs : List Run
  pub jobs : Table

-- RepairTurnRepository.get, among the turns of the session
unfoldable pub get_turn : String → List Turn → Option Turn
get_turn id [] = none
get_turn id (t ∷ ts) = if str_eq t.id id then some t else get_turn id ts

-- RepairTurnRepository.get_by_client_turn_id
unfoldable pub get_by_client_turn_id : String → List Turn → Option Turn
get_by_client_turn_id client [] = none
get_by_client_turn_id client (t ∷ ts) =
    if str_eq t.client_turn_id client then some t else get_by_client_turn_id client ts
