-- ===== src/Repairs/Accept.antt =====
-- TurnService.accept_turn (services/turns.py). What the service draws or reads from its settings is an
-- argument. A refusal rolls back, so that the session stays as it was.
pub mod Cases
pub mod Durable
use bike_doc.Prelude.{
  ℕ, ◌+◌, String, Bool, true, false, not, ◌&&◌, ◌||◌, Option, none, some, List, [], ◌∷◌, ◌++◌, ltb,
  leb, str_eq, text_is, if◌then◌else◌, or_else,
}
use bike_doc.Jobs.Row.{JobRecord}
use bike_doc.Jobs.Table.{Table, RecordResult, recorded, definition_conflict, record_job}
use bike_doc.Safety.Flags.{Phase, phase_eq, diagnostic}
use bike_doc.Repairs.Model.{
  Status, created, awaiting_user, Repair, Turn, SessionEvent, turn_started, Product,
  get_by_client_turn_id,
}
use bike_doc.Repairs.Request.{
  TurnRequest, Acceptance, AcceptError, Accepted, AcceptResult, accepted, refused, not_found,
  idempotency_conflict, validate_session, validate_artifacts, has_images,
}
use bike_doc.Repairs.Producers.{Produced, stored, raised, record_turn_jobs}

-- _turn_acceptance_session_snapshot
unfoldable pub acceptance_snapshot : Repair → Turn → Repair
acceptance_snapshot r t = record r {
  status = Status.running;
  current_input_request = none;
  latest_event_sequence = t.start_event_sequence;
  updated_at = t.created_at;
}

-- The lookup of the client's turn, and the answer if it is there.
unfoldable pub replay_of : String → TurnRequest → Product → Option AcceptResult
unfolding get_by_client_turn_id acceptance_snapshot
replay_of hash request p = elim (get_by_client_turn_id request.client_turn_id p.turns) [
  | none ↦ none
  | some t ↦ some (
      if str_eq t.request_hash hash
      then accepted
          (record { turn = t; session = acceptance_snapshot p.repair t; is_replay = true })
      else refused idempotency_conflict)
]

-- _create_turn_started
unfoldable pub create_turn_started : Acceptance → TurnRequest → Product → Turn × Product
create_turn_started a request p =
    let start : ℕ = p.repair.latest_event_sequence + 1 in
    let turn : Turn = record {
      id = a.turn_id;
      repair_session_id = p.repair.id;
      repair_phase_session_id = a.phase_session_id;
      client_turn_id = request.client_turn_id;
      request_hash = a.request_hash;
      phase = diagnostic;
      artifact_ids = request.artifact_ids;
      responds_to_input_request_id = request.responds_to_input_request_id;
      start_event_sequence = start;
      image_analysis_mode =
          if has_images request.artifact_ids then some a.image_analysis_mode else none;
      created_at = a.now;
    } in
    (
      turn,
      record p {
        repair = record p.repair {
          status = Status.running;
          current_input_request = none;
          latest_event_sequence = start;
          updated_at = a.now;
        };
        turns = p.turns ++ turn ∷ [];
        events =
            p.events
            ++ record {
              sequence = start;
              turn_id = some a.turn_id;
              content = turn_started a.turn_id diagnostic;
            }
              ∷ [];
      },
    )

-- The last part of accept_turn, with every check passed: the turn, its event and its jobs.
unfoldable pub commit_turn : Acceptance → TurnRequest → Product → AcceptResult × Product
unfolding create_turn_started record_turn_jobs acceptance_snapshot
commit_turn a request p =
    let (turn, p') = create_turn_started a request p in
    elim (record_turn_jobs a request p'.jobs) [
      | raised e ↦ (refused e, p)
      | stored t ↦ (
        accepted (record {
          turn = turn;
          session = acceptance_snapshot p'.repair turn;
          is_replay = false;
        }),
        record p' { jobs = t },
      )
    ]

-- What accept_turn checks twice: before the lock, and again under it.
unfoldable pub preflight : Acceptance → TurnRequest → Product → Option AcceptResult
unfolding replay_of validate_session
preflight a request p = elim (replay_of a.request_hash request p) [
  | some r ↦ some r
  | none ↦ elim (validate_session p.repair request) [ some e ↦ some (refused e) | none ↦ none ]
]

-- accept_turn under the lock
unfoldable pub accept_locked : Acceptance → TurnRequest → Product → AcceptResult × Product
unfolding preflight validate_artifacts commit_turn
accept_locked a request p = elim (preflight a request p) [
  | some r ↦ (r, p)
  | none ↦ elim (validate_artifacts a.get_artifact p.repair.id request.artifact_ids) [
    | some e ↦ (refused e, p)
    | none ↦ commit_turn a request p
  ]
]

-- accept_turn: `seen` is the owned session before the lock, and then the one under it.
unfoldable pub accept_turn :
    Acceptance → TurnRequest → Option Product → Option Product → AcceptResult × Option Product
unfolding preflight accept_locked
accept_turn a request none locked = (refused not_found, locked)
accept_turn a request (some seen) locked = elim (preflight a request seen) [
  | some r ↦ (r, locked)
  | none ↦ elim locked [
    | none ↦ (refused not_found, none)
    | some p ↦ let (r, p') = accept_locked a request p in (r, some p')
  ]
]
