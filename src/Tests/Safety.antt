-- ===== src/Tests/Safety.antt =====
-- A session with a warning to which a blocking flag is raised, and what is proved at it.
use bike_doc.Prelude.{◌≤◌, ◌≡◌, refl, true, false, [], ◌∷◌}
use bike_doc.Safety.Flags.{
  SafetyFlag, warning, blocking, diagnostic, shop_recommended, deduplicate, state_rank,
  derive_safety_state,
}
use bike_doc.Safety.Flags.Highest.{derive-deduplicate}
use bike_doc.Safety.Session.{RepairSession, raise_flag}
use bike_doc.Safety.Session.Blocks.{raise, report, changes, rank-changes}

abbrev worn : SafetyFlag
worn = record {
  code = "brake_wear";
  severity = warning;
  phase = diagnostic;
  message = "The pads are worn.";
  blocks_repair_instructions = false;
}

abbrev failed : SafetyFlag
failed = record worn {
  severity = blocking;
  message = "The brake failed.";
  blocks_repair_instructions = true;
}

abbrev session : RepairSession
session = record {
  id = "session_1";
  phase = diagnostic;
  safety_state = shop_recommended;
  active_safety_flags = worn ∷ [];
  latest_event_sequence = 4;
}

-- Raising the blocking flag replaces the warning of its key, and blocks the session.
raise_failed : (raise_flag session failed).1.active_safety_flags ≡ failed ∷ []
unfolding raise_flag deduplicate
raise_failed = refl

rank-changes_example :
    2 ≤ state_rank (changes session (raise failed ∷ report (worn ∷ []) ∷ [])).safety_state
unfolding derive_safety_state
rank-changes_example = rank-changes session (raise failed ∷ report (worn ∷ []) ∷ []) refl

derive-deduplicate_example :
    derive_safety_state (deduplicate (worn ∷ failed ∷ worn ∷ []))
    ≡ derive_safety_state (worn ∷ failed ∷ worn ∷ [])
derive-deduplicate_example = derive-deduplicate (worn ∷ failed ∷ worn ∷ [])
