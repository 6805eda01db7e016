-- ===== src/Safety/Flags.antt =====
-- Validated safety flags: severities, keys, the derived state and the deduplication of
-- services/safety.py, with the enums of schemas/common.py.
pub mod Highest
pub mod Keys
use mathlib.Core.List.{foldl}
use bike_doc.Prelude.{
  ℕ, String, Bool, true, false, not, ◌&&◌, ◌||◌, Option, none, some, List, [], ◌∷◌, ltb, ◌==◌,
  str_eq, if◌then◌else◌,
}

-- SafetySeverity
pub data Severity : Type 0 where
  info caution warning blocking : Severity

-- SafetyState
pub data SafetyState : Type 0 where
  ok cautious shop_recommended blocked : SafetyState

-- RepairSessionPhase
pub data Phase : Type 0 where
  diagnostic planning execution completed shop_referred cancelled : Phase

-- _SEVERITY_RANK
abbrev pub severity_rank : Severity → ℕ
severity_rank info = 0
severity_rank caution = 1
severity_rank warning = 2
severity_rank blocking = 3

abbrev pub phase_eq : Phase → Phase → Bool
phase_eq diagnostic diagnostic = true
phase_eq planning planning = true
phase_eq execution execution = true
phase_eq completed completed = true
phase_eq shop_referred shop_referred = true
phase_eq cancelled cancelled = true
phase_eq _ _ = false

pub record SafetyFlag : Type 0 where
  pub code : String
  pub severity : Severity
  pub phase : Phase
  pub message : String
  pub blocks_repair_instructions : Bool

abbrev pub severity_is : Severity → Severity → Bool
severity_is s t = severity_rank s == severity_rank t

-- any(flag.severity is s for flag in flags)
abbrev any_severity : Severity → List SafetyFlag → Bool
any_severity s [] = false
any_severity s (f ∷ fs) = severity_is f.severity s || any_severity s fs

-- derive_safety_state
unfoldable pub derive_safety_state : List SafetyFlag → SafetyState
derive_safety_state flags =
    if any_severity blocking flags
    then blocked
    else if any_severity warning flags
    then shop_recommended
    else if any_severity caution flags
    then cautious
    else ok

-- The key `(code, phase)`
unfoldable pub same_key : SafetyFlag → SafetyFlag → Bool
same_key f g = str_eq f.code g.code && phase_eq f.phase g.phase

-- What _deduplicate_active_flags keeps of two flags with one key.
unfoldable pub merge_flag : SafetyFlag → SafetyFlag → SafetyFlag
merge_flag current candidate =
    if ltb (severity_rank current.severity) (severity_rank candidate.severity)
    then candidate
    else if (severity_rank candidate.severity == severity_rank current.severity)
        && candidate.blocks_repair_instructions
        && not current.blocks_repair_instructions
    then record current { blocks_repair_instructions = true }
    else current

-- One round of the loop of _deduplicate_active_flags: a dict keeps the place of its first key.
unfoldable pub absorb : List SafetyFlag → SafetyFlag → List SafetyFlag
unfolding same_key merge_flag
absorb [] flag = flag ∷ []
absorb (g ∷ gs) flag = if same_key g flag then merge_flag g flag ∷ gs else g ∷ absorb gs flag

-- _deduplicate_active_flags
unfoldable pub deduplicate : List SafetyFlag → List SafetyFlag
unfolding absorb
deduplicate = foldl absorb []

unfoldable pub find_flag : SafetyFlag → List SafetyFlag → Option SafetyFlag
unfolding same_key
find_flag flag [] = none
find_flag flag (g ∷ gs) = if same_key g flag then some g else find_flag flag gs

-- _reject_contradictory_duplicates: whether it raises nothing. `seen` is what the dict holds, the
-- last severity under each key first.
unfoldable pub consistent_from : List SafetyFlag → List SafetyFlag → Bool
unfolding find_flag
consistent_from seen [] = true
consistent_from seen (f ∷ fs) =
    let rest = consistent_from (f ∷ seen) fs in
    elim (find_flag f seen) [
      | none ↦ rest
      | some g ↦ if severity_is g.severity f.severity then rest else false
    ]

-- The tests of _should_emit_safety_escalated for one active flag.
unfoldable pub escalates : List SafetyFlag → SafetyFlag → Bool
unfolding find_flag
escalates previous f = elim (find_flag f previous) [
  | none ↦ true
  | some p ↦
      ltb (severity_rank p.severity) (severity_rank f.severity)
      || ((severity_is f.severity warning || severity_is f.severity blocking)
          && f.blocks_repair_instructions
          && not p.blocks_repair_instructions)
]

abbrev pub any_escalates : List SafetyFlag → List SafetyFlag → Bool
any_escalates previous [] = false
any_escalates previous (f ∷ fs) = escalates previous f || any_escalates previous fs

abbrev pub state_rank : SafetyState → ℕ
state_rank ok = 0
state_rank cautious = 1
state_rank shop_recommended = 2
state_rank blocked = 3

-- _should_emit_safety_escalated
unfoldable pub should_emit : List SafetyFlag → SafetyState → List SafetyFlag → SafetyState → Bool
unfolding escalates
should_emit previous previous_state active state =
    if not (state_rank previous_state == state_rank state)
    then true
    else any_escalates previous active
