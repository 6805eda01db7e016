-- ===== src/Repairs/Request.antt =====
-- The request of a turn, and what TurnService checks of the session and of the artifacts
-- (services/turns.py).
use bike_doc.Prelude.{
  ℕ, String, Bool, true, false, not, ◌||◌, Option, none, some, List, [], ◌∷◌, str_eq, text_is,
  if◌then◌else◌,
}
use bike_doc.Safety.Flags.{phase_eq, diagnostic}
use bike_doc.Repairs.Model.{Status, created, awaiting_user, Repair, Turn}

-- TurnCreate
pub record TurnRequest : Type 0 where
  pub client_turn_id : String
  pub artifact_ids : List String
  pub responds_to_input_request_id : Option String

-- ArtifactStatus
pub data ArtifactStatus : Type 0 where
  uploaded processing ready rejected : ArtifactStatus

pub record Artifact : Type 0 where
  pub repair_session_id : String
  pub status : ArtifactStatus
  pub is_diagnostic_image : Bool

-- What a call of the service is given: the digests of hashlib, the artifacts that get_owned finds,
-- the phase session, fresh ids, the time and the settings.
pub record Acceptance : Type 0 where
  pub request_hash : String
  pub get_artifact : String → Option Artifact
  pub phase_session_id : String
  pub turn_id : String
  pub diagnostic_job_id : String
  pub profile_job_id : String
  pub profile_deduplication_key : String
  pub now : ℕ
  pub diagnostic_attempt_limit : ℕ
  pub profile_max_attempts : ℕ
  pub profile_extractor_version : String
  pub image_analysis_mode : String

pub data AcceptError : Type 0 where
  not_found idempotency_conflict session_state_conflict artifact_not_ready : AcceptError
  validation_failed server_error : AcceptError

-- TurnAccepted, and whether it is a replay.
pub record Accepted : Type 0 where
  pub turn : Turn
  pub session : Repair
  pub is_replay : Bool

pub data AcceptResult : Type 0 where
  accepted : Accepted → AcceptResult
  refused : AcceptError → AcceptResult

-- ACCEPTING_DIAGNOSTIC_STATUSES
abbrev pub is_accepting : Status → Bool
is_accepting created = true
is_accepting awaiting_user = true
is_accepting _ = false

-- _validate_input_request: whether it raises nothing.
abbrev pub input_request_known : Repair → Option String → Bool
input_request_known r none = true
input_request_known r (some id) = text_is r.current_input_request id

-- _validate_accepting_diagnostic_turns, then _validate_input_request
unfoldable pub validate_session : Repair → TurnRequest → Option AcceptError
validate_session r request =
    if not (phase_eq r.phase diagnostic) || not (is_accepting r.status)
    then some session_state_conflict
    else if not (input_request_known r request.responds_to_input_request_id)
    then some not_found
    else none

-- What one artifact is found to be.
pub data ArtifactCheck : Type 0 where
  good missing not_ready invalid : ArtifactCheck

unfoldable pub check_artifact : String → Option Artifact → ArtifactCheck
check_artifact session none = missing
check_artifact session (some a) =
    if not (str_eq a.repair_session_id session) then missing else elim a.status [
      | uploaded ↦ not_ready
      | processing ↦ not_ready
      | rejected ↦ invalid
      | ready ↦ if a.is_diagnostic_image then good else invalid
    ]

abbrev pub any_check : (ArtifactCheck → Bool) → List ArtifactCheck → Bool
any_check p [] = false
any_check p (c ∷ cs) = p c || any_check p cs

abbrev pub is_missing : ArtifactCheck → Bool
is_missing missing = true
is_missing _ = false

abbrev pub is_not_ready : ArtifactCheck → Bool
is_not_ready not_ready = true
is_not_ready _ = false

abbrev pub is_invalid : ArtifactCheck → Bool
is_invalid invalid = true
is_invalid _ = false

abbrev pub checks : (String → Option Artifact) → String → List String → List ArtifactCheck
checks get session [] = []
checks get session (i ∷ is) = check_artifact session (get i) ∷ checks get session is

-- _validate_artifacts
unfoldable pub validate_artifacts :
    (String → Option Artifact) → String → List String → Option AcceptError
unfolding check_artifact
validate_artifacts get session ids =
    let cs : List ArtifactCheck = checks get session ids in
    if any_check is_missing cs
    then some not_found
    else if any_check is_not_ready cs
    then some artifact_not_ready
    else if any_check is_invalid cs
    then some validation_failed
    else none

abbrev pub has_images : List String → Bool
has_images [] = false
has_images _ = true
