-- ===== src/Profile/Recompute/Agrees.antt =====
-- Resolutions and projection still agree when the derived facts are computed.
use bike_doc.Prelude.{
  Bool, true, false, some, List, [], ◌∷◌, ◌≡◌, inl, inr, refl, sym, ap, subst, Option-cases,
}
use bike_doc.Profile.Tree.{Json, null, text, number, flag, dict, is_null, is_dict, Path_}
use bike_doc.Profile.Tree.Keeps.{is_scalar}
use bike_doc.Profile.Projection.{clears_component, clears_rotor}
use bike_doc.Profile.Claims.{Resolution, Bike, get_resolution}
use bike_doc.Profile.Gates.{is_path}
use bike_doc.Profile.Derived.{Derivation, sources_of, any_disputed}
use bike_doc.Profile.Derived.Settled.{IsUpdated}
use bike_doc.Profile.Resolver.Agrees.{IsFlat, Agrees}
use bike_doc.Profile.Resolver.Written.{written-Agrees}
use bike_doc.Profile.Recompute.Again.{IsNamed, summary_of-IsNamed, brake_keeps, brake_IsUpdated}
use bike_doc.Profile.Recompute.Counts.{
  ArePlain, ArePlainSources, tallied, count_keeps, count_IsUpdated, plain_agreed, plain_values,
}
use bike_doc.Profile.Recompute.Steps.{
  derived-Steps, crankset_sources, speed_sources, HasPlainCounts,
}
use bike_doc.Profile.Recompute.{
  legacy_summary, brake_facts, summarised, recompute_brake_summary, recompute_count, values_of,
  recompute_derived, front_chainring_count, rear_speed_count,
}

pub scalar_plain : (j : Json) → (is_null j ≡ false → is_scalar j ≡ true) → is_dict j ≡ false
scalar_plain null h = refl
scalar_plain (text s) h = refl
scalar_plain (number n) h = refl
scalar_plain (flag y) h = refl
scalar_plain (dict f) h = cc (h refl)

-- No resolution has an object as its value.
abbrev pub HasPlainValues : Bike → Type 0
HasPlainValues b =
    (q : Path_) (s : Resolution)
    → get_resolution q b.resolutions ≡ some s
    → is_dict s.current_value ≡ false

sources_plain :
    (ps : List Path_) (b : Bike) → HasPlainValues b → ArePlain (sources_of ps b.resolutions)
sources_plain [] b h = tt
sources_plain (p ∷ ps) b h = elim (Option-cases (get_resolution p b.resolutions)) [
  | inl e ↦ rw e (sources_plain ps b h)
  | inr (s, e) ↦ rw e (h p s e, sources_plain ps b h)
]

pub plain_counts : (x : Derivation) (b : Bike) → HasPlainValues b → HasPlainCounts x b
plain_counts x b h = (sources_plain crankset_sources b h, sources_plain speed_sources b h)

pub Agrees-plain : (registry : List Path_) (b : Bike) → Agrees registry b → HasPlainValues b
Agrees-plain registry b h q s e = scalar_plain s.current_value (h q s e).scalar

-- Where resolutions and projection agree, the values of the fields are no objects.
pub Agrees-plain_counts : (x : Derivation) (b : Bike) → Agrees x.registry b → HasPlainCounts x b
Agrees-plain_counts x b h = plain_counts x b (Agrees-plain x.registry b h)

-- The derived fields are canonical.
pub record HasDerived (registry : List Path_) : Type 0 where
  pub brake : is_path registry legacy_summary ≡ true
  pub front : is_path registry front_chainring_count ≡ true
  pub rear : is_path registry rear_speed_count ≡ true

updated-Agrees :
    (x : Derivation) (path : Path_) (value : Json) (dispute forgets keeps : Bool) (reason : _)
    (sources : List Resolution) (b : Bike) (w : Bool) (b' : Bike)
    → IsUpdated x path value dispute reason forgets keeps sources b w b'
    → IsFlat x.registry
    → is_path x.registry path ≡ true
    → clears_component path value ≡ false
    → clears_rotor path value ≡ false
    → (is_null value ≡ false → is_scalar value ≡ true)
    → Agrees x.registry b
    → Agrees x.registry b'
updated-Agrees x path value dispute forgets keeps reason sources b w b' (inl u) flat at c r scalar
      h =
    subst (Agrees x.registry) (sym u.1) h
updated-Agrees x path value dispute forgets keeps reason sources b w b' (inr (s, _, v, _, _)) flat
      at c r scalar h =
    written-Agrees path value s b b' v flat at c r scalar h

IsNamed-scalar : (j : Json) → IsNamed j → is_null j ≡ false → is_scalar j ≡ true
IsNamed-scalar j (inl h) n = cc
IsNamed-scalar j (inr (s, e)) n = ap is_scalar e

plain-scalar : (j : Json) → is_dict j ≡ false → is_null j ≡ false → is_scalar j ≡ true
plain-scalar null h n = cc
plain-scalar (text s) h n = refl
plain-scalar (number m) h n = refl
plain-scalar (flag y) h n = refl
plain-scalar (dict f) h n = cc

summary_scalar : (b : Bike) → is_null (summarised b).0 ≡ false → is_scalar (summarised b).0 ≡ true
unfolding summarised
summary_scalar b n = IsNamed-scalar (summarised b).0 (summary_of-IsNamed _ _ _ _ _) n

module _ (x : Derivation) (flat : IsFlat x.registry) (fields : HasDerived x.registry) where
  brake-Agrees :
      (b b' : Bike) (w : Bool)
      → recompute_brake_summary x b ≡ some (w, b')
      → Agrees x.registry b
      → Agrees x.registry b'
  brake-Agrees b b' w e h =
      updated-Agrees x legacy_summary (summarised b).0 (summarised b).1 false (brake_keeps b)
        "derived_from_resolved_brake_components" (sources_of brake_facts b.resolutions) b w b'
        (brake_IsUpdated x b w b' e) flat fields.brake refl refl (summary_scalar b) h

  count-Agrees :
      (path : Path_) (source_paths : List Path_) (b b' : Bike) (w : Bool)
      → is_path x.registry path ≡ true
      → ((value : Json) → clears_component path value ≡ false)
      → ((value : Json) → clears_rotor path value ≡ false)
      → ArePlainSources x path source_paths b
      → recompute_count x path source_paths b ≡ some (w, b')
      → Agrees x.registry b
      → Agrees x.registry b'
  count-Agrees path source_paths b b' w at c r plain e h =
      let sources = sources_of source_paths b.resolutions in
      let value = (tallied sources).0 in
      updated-Agrees x path value (tallied sources).1 true
        (count_keeps x path source_paths sources b) "derived_from_resolved_drivetrain_components"
        sources b w b' (count_IsUpdated x path source_paths b w b' plain e) flat at (c value)
        (r value)
        (plain-scalar value
          (plain_agreed (any_disputed sources) (values_of sources) (plain_values sources plain)))
        h

  -- The resolutions agree with the projection when the derived facts are computed, if they did before.
  pub recompute_derived-Agrees :
      (b b' : Bike) (w : Bool)
      → recompute_derived x b ≡ some (w, b')
      → Agrees x.registry b
      → Agrees x.registry b'
  recompute_derived-Agrees b b' w e h =
      let plain = Agrees-plain_counts x b h in
      let s = derived-Steps x b b' w plain e in
      count-Agrees rear_speed_count speed_sources s.b₂ b' s.z fields.rear (λ value. refl)
        (λ value. refl) s.plain_rear s.rear
        (count-Agrees front_chainring_count crankset_sources s.b₁ s.b₂ s.v fields.front
          (λ value. refl) (λ value. refl) s.plain_front s.front (brake-Agrees b s.b₁ s.u s.brake h))
