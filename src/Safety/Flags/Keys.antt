-- ===== src/Safety/Flags/Keys.antt =====
-- Deduplication of safety flags (_deduplicate_active_flags) and the keys of the flags.
use mathlib.Core.List.{foldl, foldl-append, append-nil, append_assoc}
use bike_doc.Prelude.{
  ◌≡◌, true, false, List, [], ◌∷◌, ◌++◌, arith, refl, sym, subst, ◌∙◌, ap, Bool-cases, inl, inr,
  All, eq_iff, eq_refl,
}
use bike_doc.Safety.Flags.{SafetyFlag, Phase, phase_eq, same_key, merge_flag, absorb, deduplicate}

phase_eq_refl : (p : Phase) → phase_eq p p ≡ true
phase_eq_refl p = ground arith

phase_eq→eq : (p q : Phase) → phase_eq p q ≡ true → p ≡ q
phase_eq→eq p q h = ground arith

pub same_key_refl : (f : SafetyFlag) → same_key f f ≡ true
unfolding same_key
same_key_refl f = ground (arith, eq_refl f.code, phase_eq_refl f.phase)

same_key_trans : (f g h : SafetyFlag) → same_key f g ≡ true → same_key f h ≡ same_key g h
unfolding same_key
same_key_trans f g h e = ground (arith, eq_iff f.code g.code, phase_eq→eq f.phase g.phase)

same_key-merge_flag :
    (f g h : SafetyFlag) → same_key f g ≡ true → same_key (merge_flag f g) h ≡ same_key f h
unfolding merge_flag same_key
same_key-merge_flag f g h e = ground (arith, eq_iff f.code g.code, phase_eq→eq f.phase g.phase)

-- No flag of the list has the key of `f`.
abbrev pub Fresh : SafetyFlag → List SafetyFlag → Type 0
Fresh f [] = Unit
Fresh f (g ∷ gs) = (same_key f g ≡ false) × Fresh f gs

-- No two flags have one key.
abbrev pub DistinctKeys : List SafetyFlag → Type 0
DistinctKeys [] = Unit
DistinctKeys (f ∷ fs) = Fresh f fs × DistinctKeys fs

fresh_merge :
    (h f g : SafetyFlag)
    → same_key h f ≡ false
    → same_key h g ≡ false
    → same_key h (merge_flag g f) ≡ false
unfolding merge_flag same_key
fresh_merge h f g n m = ground arith

Fresh-absorb :
    (h f : SafetyFlag) (fs : List SafetyFlag)
    → same_key h f ≡ false
    → Fresh h fs
    → Fresh h (absorb fs f)
unfolding absorb
Fresh-absorb h f [] n x = (n, tt)
Fresh-absorb h f (g ∷ gs) n x = elim (Bool-cases (same_key g f)) [
  | inl e ↦ rw e (fresh_merge h f g n x.0, x.1)
  | inr e ↦ rw e (x.0, Fresh-absorb h f gs n x.1)
]

Fresh-merge_flag :
    (g f : SafetyFlag) (gs : List SafetyFlag)
    → same_key g f ≡ true
    → Fresh g gs
    → Fresh (merge_flag g f) gs
Fresh-merge_flag g f [] e x = tt
Fresh-merge_flag g f (h ∷ gs) e x =
    (same_key-merge_flag g f h e ∙ x.0, Fresh-merge_flag g f gs e x.1)

DistinctKeys-absorb :
    (fs : List SafetyFlag) (f : SafetyFlag) → DistinctKeys fs → DistinctKeys (absorb fs f)
unfolding absorb
DistinctKeys-absorb [] f d = (tt, tt)
DistinctKeys-absorb (g ∷ gs) f d = elim (Bool-cases (same_key g f)) [
  | inl e ↦ rw e (Fresh-merge_flag g f gs e d.0, d.1)
  | inr e ↦ rw e (Fresh-absorb g f gs e d.0, DistinctKeys-absorb gs f d.1)
]

DistinctKeys-absorb_all :
    (acc fs : List SafetyFlag) → DistinctKeys acc → DistinctKeys (foldl absorb acc fs)
DistinctKeys-absorb_all acc [] d = d
DistinctKeys-absorb_all acc (f ∷ fs) d =
    DistinctKeys-absorb_all (absorb acc f) fs (DistinctKeys-absorb acc f d)

-- The active flags have one flag for each key.
pub deduplicate-DistinctKeys : (fs : List SafetyFlag) → DistinctKeys (deduplicate fs)
unfolding deduplicate
deduplicate-DistinctKeys fs = DistinctKeys-absorb_all [] fs tt

merge_flag_twice : (g f : SafetyFlag) → merge_flag (merge_flag g f) f ≡ merge_flag g f
unfolding merge_flag
merge_flag_twice g f = ground arith

merge_flag_self : (f : SafetyFlag) → merge_flag f f ≡ f
unfolding merge_flag
merge_flag_self f = ground arith

-- A flag that was absorbed is absorbed without a change.
pub absorb_twice : (fs : List SafetyFlag) (f : SafetyFlag) → absorb (absorb fs f) f ≡ absorb fs f
unfolding absorb
absorb_twice [] f = rw (same_key_refl f) (rw (merge_flag_self f) refl)
absorb_twice (g ∷ gs) f = elim (Bool-cases (same_key g f)) [
  | inl e ↦ rw e (rw (same_key-merge_flag g f f e) (rw e (rw (merge_flag_twice g f) refl)))
  | inr e ↦ rw e (rw e (rw (absorb_twice gs f) refl))
]

absorb_fresh :
    (acc : List SafetyFlag) (f : SafetyFlag)
    → All (λ g. same_key g f ≡ false) acc
    → absorb acc f ≡ acc ++ f ∷ []
unfolding absorb
absorb_fresh [] f a = refl
absorb_fresh (g ∷ gs) f a = rw a.0 (ap (λ x. g ∷ x) (absorb_fresh gs f a.1))

Fresh-middle :
    (g : SafetyFlag) (acc : List SafetyFlag) (f : SafetyFlag) (fs : List SafetyFlag)
    → Fresh g (acc ++ f ∷ fs)
    → same_key g f ≡ false
Fresh-middle g [] f fs x = x.0
Fresh-middle g (h ∷ acc) f fs x = Fresh-middle g acc f fs x.1

DistinctKeys-middle :
    (acc : List SafetyFlag) (f : SafetyFlag) (fs : List SafetyFlag)
    → DistinctKeys (acc ++ f ∷ fs)
    → All (λ g. same_key g f ≡ false) acc
DistinctKeys-middle [] f fs d = tt
DistinctKeys-middle (g ∷ gs) f fs d = (Fresh-middle g gs f fs d.0, DistinctKeys-middle gs f fs d.1)

absorb_all_distinct :
    (acc fs : List SafetyFlag) → DistinctKeys (acc ++ fs) → foldl absorb acc fs ≡ acc ++ fs
absorb_all_distinct acc [] d = sym (append-nil acc)
absorb_all_distinct acc (f ∷ fs) d =
    let step : absorb acc f ≡ acc ++ f ∷ [] = absorb_fresh acc f (DistinctKeys-middle acc f fs d) in
    let join : (acc ++ f ∷ []) ++ fs ≡ acc ++ f ∷ fs = append_assoc acc (f ∷ []) fs in
    ap (λ x. foldl absorb x fs) step
    ∙ absorb_all_distinct (acc ++ f ∷ []) fs (subst DistinctKeys (sym join) d)
    ∙ join

pub deduplicate_distinct : (fs : List SafetyFlag) → DistinctKeys fs → deduplicate fs ≡ fs
unfolding deduplicate
deduplicate_distinct fs d = absorb_all_distinct [] fs d

pub deduplicate-snoc :
    (fs : List SafetyFlag) (f : SafetyFlag) → deduplicate (fs ++ f ∷ []) ≡ absorb (deduplicate fs) f
unfolding deduplicate
deduplicate-snoc fs f = rw foldl-append
