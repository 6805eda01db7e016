-- ===== src/Safety/Session.antt =====
-- The safety state of a repair session: SafetyService and DiagnosticSafetyService of
-- services/safety.py, from validated flags on.
pub mod Blocks
pub mod Events
use mathlib.Core.List.{head?}
use bike_doc.Prelude.{
  ℕ, ◌+◌, String, Bool, true, false, not, ◌||◌, Option, none, some, List, [], ◌∷◌, ◌++◌,
  if◌then◌else◌,
}
use bike_doc.Safety.Flags.{
  SafetyFlag, SafetyState, Phase, phase_eq, diagnostic, deduplicate, derive_safety_state,
  should_emit,
}

-- The columns of a repair session that the service reads and writes. The flags are stored as they
-- were dumped, and are read back as they were.
pub record RepairSession : Type 0 where
  pub id : String
  pub phase : Phase
  pub safety_state : SafetyState
  pub active_safety_flags : List SafetyFlag
  pub latest_event_sequence : ℕ

-- The data of a safety.escalated event.
pub record EscalatedData : Type 0 where
  pub safety_state : SafetyState
  pub safety_flags : List SafetyFlag
  pub user_message : String
  pub blocks_repair_instructions : Bool

-- SafetySessionUpdate; the event is emitted exactly if there is event data.
pub record SafetySessionUpdate : Type 0 where
  pub previous_safety_state : SafetyState
  pub safety_state : SafetyState
  pub active_safety_flags : List SafetyFlag
  pub event_data : Option EscalatedData

abbrev pub any_blocks : List SafetyFlag → Bool
any_blocks [] = false
any_blocks (f ∷ fs) = f.blocks_repair_instructions || any_blocks fs

-- _safety_event_message
safety_event_message : List SafetyFlag → String
safety_event_message [] = "Safety state updated."
safety_event_message (f ∷ fs) = f.message

-- safety_escalated_event_data
unfoldable pub escalated_data : SafetyState → List SafetyFlag → EscalatedData
unfolding safety_event_message
escalated_data state flags = record {
  safety_state = state;
  safety_flags = flags;
  user_message = safety_event_message flags;
  blocks_repair_instructions = any_blocks flags;
}

-- _apply_active_flags
unfoldable pub apply_active_flags :
    RepairSession → List SafetyFlag → SafetySessionUpdate × RepairSession
unfolding escalated_data
apply_active_flags s proposed =
    let previous = deduplicate s.active_safety_flags in
    let active = deduplicate proposed in
    let state = derive_safety_state active in
    (
      record {
        previous_safety_state = s.safety_state;
        safety_state = state;
        active_safety_flags = active;
        event_data =
            if should_emit previous s.safety_state active state
            then some (escalated_data state active)
            else none;
      },
      record s { active_safety_flags = active; safety_state = state },
    )

-- raise_safety_flag of SafetyService, with the flag validated
unfoldable pub raise_flag : RepairSession → SafetyFlag → SafetySessionUpdate × RepairSession
unfolding apply_active_flags
raise_flag s flag = apply_active_flags s (s.active_safety_flags ++ flag ∷ [])

-- apply_report_safety_flags
unfoldable pub apply_report_flags :
    RepairSession → List SafetyFlag → SafetySessionUpdate × RepairSession
unfolding apply_active_flags
apply_report_flags s flags = apply_active_flags s (s.active_safety_flags ++ flags)

-- A stored safety.escalated event
pub record SafetyEvent : Type 0 where
  pub session_id : String
  pub sequence : ℕ
  pub event : EscalatedData

pub data RaiseError : Type 0 where
  not_found session_state_conflict : RaiseError

-- What one committed call changes: the session, and the event appended with it.
pub record Raised : Type 0 where
  pub session : RepairSession
  pub update : SafetySessionUpdate
  pub appended : Option SafetyEvent

pub data RaiseResult : Type 0 where
  raised : Raised → RaiseResult
  refused : RaiseError → RaiseResult

-- The event of the update, at the next sequence of the session.
record_event : RepairSession → SafetySessionUpdate → Raised
record_event s update = elim update.event_data [
  | none ↦ record { session = s; update = update; appended = none }
  | some d ↦ record {
    session = record s { latest_event_sequence = s.latest_event_sequence + 1 };
    update = update;
    appended =
        some (record { session_id = s.id; sequence = s.latest_event_sequence + 1; event = d });
  }
]

-- DiagnosticSafetyService.raise_safety_flag on the session that get_owned_for_update locked
unfoldable pub raise_safety_flag : Option RepairSession → SafetyFlag → RaiseResult
unfolding record_event raise_flag
raise_safety_flag none flag = refused not_found
raise_safety_flag (some s) flag =
    if not (phase_eq s.phase diagnostic)
    then refused session_state_conflict
    else (let (update, s') = raise_flag s flag in raised (record_event s' update))
