-- ===== src/Safety/Flags/Highest.antt =====
-- The derived safety state (derive_safety_state) and the highest severity of a list of flags.
use mathlib.Core.List.{foldl}
use bike_doc.Prelude.{ℕ, ◌≡◌, List, [], ◌∷◌, ◌++◌, arith, max, refl, sym, ◌∙◌, Bool-cases, inl, inr}
use bike_doc.Safety.Flags.{
  SafetyFlag, SafetyState, severity_rank, state_rank, derive_safety_state, same_key, merge_flag,
  absorb, deduplicate,
}

abbrev pub highest : List SafetyFlag → ℕ
highest [] = 0
highest (f ∷ fs) = max (severity_rank f.severity) (highest fs)

-- The derived state has the rank of the highest severity.
pub derive-highest : (fs : List SafetyFlag) → state_rank (derive_safety_state fs) ≡ highest fs
unfolding derive_safety_state
derive-highest [] = refl
derive-highest (f ∷ fs) = ground (arith, derive-highest fs)

rank-merge_flag :
    (f g : SafetyFlag)
    → severity_rank (merge_flag f g).severity
      ≡ max (severity_rank f.severity) (severity_rank g.severity)
unfolding merge_flag
rank-merge_flag f g = ground arith

highest-absorb :
    (fs : List SafetyFlag) (f : SafetyFlag)
    → highest (absorb fs f) ≡ max (highest fs) (severity_rank f.severity)
unfolding absorb
highest-absorb [] f = omega arith
highest-absorb (g ∷ gs) f = elim (Bool-cases (same_key g f)) [
  | inl e ↦ rw e (omega (arith, rank-merge_flag g f))
  | inr e ↦ rw e (omega (arith, highest-absorb gs f))
]

highest-absorb_all :
    (acc fs : List SafetyFlag) → highest (foldl absorb acc fs) ≡ max (highest acc) (highest fs)
highest-absorb_all acc [] = omega arith
highest-absorb_all acc (f ∷ fs) =
    omega (arith, highest-absorb_all (absorb acc f) fs, highest-absorb acc f)

pub highest-deduplicate : (fs : List SafetyFlag) → highest (deduplicate fs) ≡ highest fs
unfolding deduplicate
highest-deduplicate fs = omega (arith, highest-absorb_all [] fs)

pub highest-append : (fs gs : List SafetyFlag) → highest (fs ++ gs) ≡ max (highest fs) (highest gs)
highest-append [] gs = omega arith
highest-append (f ∷ fs) gs = omega (arith, highest-append fs gs)

state_rank-injective : (a b : SafetyState) → state_rank a ≡ state_rank b → a ≡ b
state_rank-injective a b h = ground arith

-- Deduplication derives the state that the whole list derives: no severity is lost.
pub derive-deduplicate :
    (fs : List SafetyFlag) → derive_safety_state (deduplicate fs) ≡ derive_safety_state fs
derive-deduplicate fs =
    state_rank-injective _ _
      (derive-highest (deduplicate fs) ∙ highest-deduplicate fs ∙ sym (derive-highest fs))
