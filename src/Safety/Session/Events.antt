-- ===== src/Safety/Session/Events.antt =====
-- What a raised flag announces (_should_emit_safety_escalated and the data of the event).
use mathlib.Core.List.{foldl}
use bike_doc.Prelude.{
  ◌≡◌, List, [], ◌∷◌, ◌++◌, none, some, arith, ap, sym, ◌∙◌, refl, true, false, not, ◌&&◌, All,
  Bool-cases, inl, inr,
}
use bike_doc.Safety.Flags.{
  SafetyFlag, SafetyState, blocked, blocking, severity_is, derive_safety_state, deduplicate, absorb,
  merge_flag, find_flag, escalates, any_escalates, should_emit, same_key,
}
use bike_doc.Safety.Flags.Keys.{
  DistinctKeys, Fresh, same_key_refl, deduplicate-DistinctKeys, deduplicate_distinct,
  deduplicate-snoc, absorb_twice,
}
use bike_doc.Safety.Session.{RepairSession, apply_active_flags, raise_flag, any_blocks}

-- The policy of validated flags: a blocking flag blocks repair instructions.
abbrev pub IsPolicy : SafetyFlag → Type 0
IsPolicy f = (severity_is f.severity blocking && not f.blocks_repair_instructions) ≡ false

merge_flag-IsPolicy : (f g : SafetyFlag) → IsPolicy f → IsPolicy g → IsPolicy (merge_flag f g)
unfolding merge_flag
merge_flag-IsPolicy f g p q = ground arith

absorb-IsPolicy :
    (fs : List SafetyFlag) (f : SafetyFlag)
    → All IsPolicy fs
    → IsPolicy f
    → All IsPolicy (absorb fs f)
unfolding absorb
absorb-IsPolicy [] f a p = (p, tt)
absorb-IsPolicy (g ∷ gs) f a p = elim (Bool-cases (same_key g f)) [
  | inl e ↦ rw e (merge_flag-IsPolicy g f a.0 p, a.1)
  | inr e ↦ rw e (a.0, absorb-IsPolicy gs f a.1 p)
]

absorb-All-IsPolicy :
    (acc fs : List SafetyFlag)
    → All IsPolicy acc
    → All IsPolicy fs
    → All IsPolicy (foldl absorb acc fs)
absorb-All-IsPolicy acc [] a b = a
absorb-All-IsPolicy acc (f ∷ fs) a b =
    absorb-All-IsPolicy (absorb acc f) fs (absorb-IsPolicy acc f a b.0) b.1

deduplicate-IsPolicy : (fs : List SafetyFlag) → All IsPolicy fs → All IsPolicy (deduplicate fs)
unfolding deduplicate
deduplicate-IsPolicy fs a = absorb-All-IsPolicy [] fs tt a

blocked-any_blocks :
    (fs : List SafetyFlag)
    → All IsPolicy fs
    → derive_safety_state fs ≡ blocked
    → any_blocks fs ≡ true
unfolding derive_safety_state
blocked-any_blocks [] a b = cc
blocked-any_blocks (f ∷ fs) a b = ground (arith, blocked-any_blocks fs)

-- Flags that were validated and derive the state blocked have an active flag that blocks repair
-- instructions, so the announced data blocks them.
pub apply_blocked_blocks :
    (s : RepairSession) (proposed : List SafetyFlag)
    → All IsPolicy proposed
    → (apply_active_flags s proposed).0.safety_state ≡ blocked
    → any_blocks (apply_active_flags s proposed).1.active_safety_flags ≡ true
unfolding apply_active_flags
apply_blocked_blocks s proposed a b =
    blocked-any_blocks (deduplicate proposed) (deduplicate-IsPolicy proposed a) b

-- Each flag of a list is what a lookup by its key finds.
Finds : List SafetyFlag → List SafetyFlag → Type 0
Finds previous = All (λ f. find_flag f previous ≡ some f)

Finds-cons :
    (g : SafetyFlag) (gs fs : List SafetyFlag) → Fresh g fs → Finds gs fs → Finds (g ∷ gs) fs
unfolding Finds find_flag
Finds-cons g gs [] n a = tt
Finds-cons g gs (f ∷ fs) n a = (rw n.0 a.0, Finds-cons g gs fs n.1 a.1)

Finds-self : (fs : List SafetyFlag) → DistinctKeys fs → Finds fs fs
unfolding Finds find_flag
Finds-self [] d = tt
Finds-self (f ∷ fs) d = (rw (same_key_refl f) refl, Finds-cons f fs fs d.0 (Finds-self fs d.1))

escalates_found :
    (previous : List SafetyFlag) (f : SafetyFlag)
    → find_flag f previous ≡ some f
    → escalates previous f ≡ false
unfolding escalates
escalates_found previous f e = rw (e, escalates) (ground arith)

Finds-quiet :
    (previous fs : List SafetyFlag) → Finds previous fs → any_escalates previous fs ≡ false
unfolding Finds
Finds-quiet previous [] a = refl
Finds-quiet previous (f ∷ fs) a = rw (escalates_found previous f a.0) (Finds-quiet previous fs a.1)

same_rank_quiet :
    (previous active : List SafetyFlag) (a b : SafetyState)
    → a ≡ b
    → any_escalates previous active ≡ false
    → should_emit previous a active b ≡ false
unfolding should_emit
same_rank_quiet previous active a b e q = ground arith

-- The event of an applied change.
apply-event :
    (s : RepairSession) (proposed : List SafetyFlag)
    → should_emit
        (deduplicate s.active_safety_flags)
        s.safety_state
        (deduplicate proposed)
        (derive_safety_state (deduplicate proposed))
      ≡ false
    → (apply_active_flags s proposed).0.event_data ≡ none
unfolding apply_active_flags
apply-event s proposed e = rw e refl

raise-active :
    (s : RepairSession) (f : SafetyFlag)
    → (raise_flag s f).1.active_safety_flags ≡ absorb (deduplicate s.active_safety_flags) f
unfolding raise_flag
raise-active s f = deduplicate-snoc s.active_safety_flags f

raise-distinct :
    (s : RepairSession) (f : SafetyFlag) → DistinctKeys (raise_flag s f).1.active_safety_flags
unfolding raise_flag
raise-distinct s f = deduplicate-DistinctKeys (s.active_safety_flags ++ f ∷ [])

-- The active flags that raising the same flag again proposes are those that are there.
reraise_active :
    (s : RepairSession) (f : SafetyFlag)
    → let active = (raise_flag s f).1.active_safety_flags in deduplicate (active ++ f ∷ []) ≡ active
reraise_active s f =
    let active = (raise_flag s f).1.active_safety_flags in
    deduplicate-snoc active f
    ∙ ap (λ x. absorb x f) (deduplicate_distinct active (raise-distinct s f) ∙ raise-active s f)
    ∙ absorb_twice (deduplicate s.active_safety_flags) f
    ∙ sym (raise-active s f)

quiet_on :
    (active p n : List SafetyFlag)
    → DistinctKeys active
    → p ≡ active
    → n ≡ active
    → should_emit p (derive_safety_state active) n (derive_safety_state n) ≡ false
quiet_on active p n d e h =
    rw (e, h)
      (same_rank_quiet active active _ _ refl (Finds-quiet active active (Finds-self active d)))

-- Raising a flag that was just raised changes neither the flags nor the state, and announces
-- nothing.
pub raise_flag_twice :
    (s : RepairSession) (f : SafetyFlag)
    → ((raise_flag (raise_flag s f).1 f).1 ≡ (raise_flag s f).1)
      × ((raise_flag (raise_flag s f).1 f).0.event_data ≡ none)
unfolding raise_flag
raise_flag_twice s f =
    let once : RepairSession = (raise_flag s f).1 in
    let active : List SafetyFlag = once.active_safety_flags in
    (
      ap (λ a. record once { active_safety_flags = a; safety_state = derive_safety_state a })
          (reraise_active s f),
      apply-event once (active ++ f ∷ []) (
          quiet_on active (deduplicate active) (deduplicate (active ++ f ∷ [])) (raise-distinct s f)
            (deduplicate_distinct active (raise-distinct s f)) (reraise_active s f)),
    )
