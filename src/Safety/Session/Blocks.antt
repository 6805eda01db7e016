-- ===== src/Safety/Session/Blocks.antt =====
-- Changes of the safety state of a session.
use bike_doc.Prelude.{◌≤◌, ◌≡◌, List, [], ◌∷◌, ◌++◌, arith, ap, refl}
use bike_doc.Safety.Flags.{SafetyFlag, blocked, state_rank, derive_safety_state, deduplicate}
use bike_doc.Safety.Flags.Highest.{derive-highest, highest-deduplicate, highest-append}
use bike_doc.Safety.Session.{RepairSession, raise_flag, apply_report_flags}

-- The stored state is the one that the stored flags derive.
abbrev pub IsDerived : RepairSession → Type 0
IsDerived s = s.safety_state ≡ derive_safety_state s.active_safety_flags

-- A change of the active flags of a session: a raised flag or the flags of a report.
pub data Change : Type 0 where
  raise : SafetyFlag → Change
  report : List SafetyFlag → Change

unfoldable pub change : RepairSession → Change → RepairSession
change s (raise f) = (raise_flag s f).1
change s (report fs) = (apply_report_flags s fs).1

unfoldable pub changes : RepairSession → List Change → RepairSession
unfolding change
changes s [] = s
changes s (c ∷ cs) = changes (change s c) cs

pub change-IsDerived : (s : RepairSession) (c : Change) → IsDerived (change s c)
unfolding change raise_flag apply_report_flags
change-IsDerived s (raise f) = refl
change-IsDerived s (report fs) = refl

rank-applied :
    (s : RepairSession) (fs : List SafetyFlag)
    → IsDerived s
    → state_rank s.safety_state
      ≤ state_rank (derive_safety_state (deduplicate (s.active_safety_flags ++ fs)))
rank-applied s fs d = omega (
  arith,
  ap state_rank d,
  derive-highest s.active_safety_flags,
  derive-highest (deduplicate (s.active_safety_flags ++ fs)),
  highest-deduplicate (s.active_safety_flags ++ fs),
  highest-append s.active_safety_flags fs,
)

rank-change :
    (s : RepairSession) (c : Change)
    → IsDerived s
    → state_rank s.safety_state ≤ state_rank (change s c).safety_state
unfolding change raise_flag apply_report_flags
rank-change s (raise f) d = rank-applied s (f ∷ []) d
rank-change s (report fs) d = rank-applied s fs d

-- Whatever flags are raised or reported afterwards, the safety state of a session never becomes less
-- severe, if its stored state is the one that its stored flags derive.
pub rank-changes :
    (s : RepairSession) (cs : List Change)
    → IsDerived s
    → state_rank s.safety_state ≤ state_rank (changes s cs).safety_state
unfolding changes
rank-changes s [] d = omega arith
rank-changes s (c ∷ cs) d =
    omega (arith, rank-change s c d, rank-changes (change s c) cs (change-IsDerived s c))

-- A blocked session whose stored state is the one that its stored flags derive stays blocked.
pub blocked_stays :
    (s : RepairSession) (cs : List Change)
    → IsDerived s
    → s.safety_state ≡ blocked
    → (changes s cs).safety_state ≡ blocked
blocked_stays s cs d b = ground (arith, rank-changes s cs d)
