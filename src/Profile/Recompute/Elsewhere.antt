-- ===== src/Profile/Recompute/Elsewhere.antt =====
-- The fields that are not derived, when the derived facts are computed.
use bike_doc.Prelude.{true, false, Bool, some, List, ◌≡◌, ◌∙◌, inl, inr, refl, ap}
use bike_doc.Profile.Tree.{Json, Path_, technical_value}
use bike_doc.Profile.Projection.{path_eq, clears_component, clears_rotor}
use bike_doc.Profile.Claims.{Resolution, Bike, get_resolution}
use bike_doc.Profile.Gates.{is_path}
use bike_doc.Profile.Derived.{Derivation, sources_of}
use bike_doc.Profile.Derived.Settled.{IsUpdated}
use bike_doc.Profile.Resolver.Agrees.{IsFlat}
use bike_doc.Profile.Resolver.Written.{written_reads_other}
use bike_doc.Profile.Recompute.Again.{brake_keeps, brake_IsUpdated}
use bike_doc.Profile.Recompute.Counts.{tallied, count_keeps, count_IsUpdated, ArePlainSources}
use bike_doc.Profile.Recompute.Steps.{
  derived-Steps, crankset_sources, speed_sources, HasPlainCounts,
}
use bike_doc.Profile.Recompute.Agrees.{HasDerived}
use bike_doc.Profile.Recompute.{
  legacy_summary, brake_facts, summarised, recompute_count, recompute_derived,
  front_chainring_count, rear_speed_count,
}

-- The field is not derived.
pub record IsOriginal (q : Path_) : Type 0 where
  pub brake : path_eq legacy_summary q ≡ false
  pub front : path_eq front_chainring_count q ≡ false
  pub rear : path_eq rear_speed_count q ≡ false

updated_reads :
    (x : Derivation) (path : Path_) (value : Json) (dispute forgets keeps : Bool) (reason : _)
    (sources : List Resolution) (b : Bike) (w : Bool) (b' : Bike) (q : Path_)
    → IsUpdated x path value dispute reason forgets keeps sources b w b'
    → IsFlat x.registry
    → is_path x.registry path ≡ true
    → clears_component path value ≡ false
    → clears_rotor path value ≡ false
    → is_path x.registry q ≡ true
    → path_eq path q ≡ false
    → technical_value q b'.technical_profile ≡ technical_value q b.technical_profile
updated_reads x path value dispute forgets keeps reason sources b w b' q (inl u) flat at c r known
      h =
    ap (λ (y : Bike). technical_value q y.technical_profile) u.1
updated_reads x path value dispute forgets keeps reason sources b w b' q (inr (s, _, v, _, _)) flat
      at c r known h =
    written_reads_other path value s b b' v flat at c r q known h

module _ (x : Derivation) (q : Path_) (other : IsOriginal q) where
  pub recompute_derived_elsewhere :
      (b b' : Bike) (w : Bool)
      → HasPlainCounts x b
      → recompute_derived x b ≡ some (w, b')
      → get_resolution q b'.resolutions ≡ get_resolution q b.resolutions
  recompute_derived_elsewhere b b' w plain e =
      let s = derived-Steps x b b' w plain e in
      s.after_rear q other.rear ∙ s.after_front q other.front ∙ s.after_brake q other.brake

  module _ (flat : IsFlat x.registry) (fields : HasDerived x.registry)
      (known : is_path x.registry q ≡ true) where
    count_reads :
        (path : Path_) (source_paths : List Path_) (b b' : Bike) (w : Bool)
        → is_path x.registry path ≡ true
        → ((value : Json) → clears_component path value ≡ false)
        → ((value : Json) → clears_rotor path value ≡ false)
        → ArePlainSources x path source_paths b
        → recompute_count x path source_paths b ≡ some (w, b')
        → path_eq path q ≡ false
        → technical_value q b'.technical_profile ≡ technical_value q b.technical_profile
    count_reads path source_paths b b' w at c r plain e h =
        let sources = sources_of source_paths b.resolutions in
        let value = (tallied sources).0 in
        updated_reads x path value (tallied sources).1 true
          (count_keeps x path source_paths sources b) "derived_from_resolved_drivetrain_components"
          sources b w b' q (count_IsUpdated x path source_paths b w b' plain e) flat at (c value)
          (r value) known h

    pub recompute_derived_reads :
        (b b' : Bike) (w : Bool)
        → HasPlainCounts x b
        → recompute_derived x b ≡ some (w, b')
        → technical_value q b'.technical_profile ≡ technical_value q b.technical_profile
    recompute_derived_reads b b' w plain e =
        let s = derived-Steps x b b' w plain e in
        count_reads rear_speed_count speed_sources s.b₂ b' s.z fields.rear (λ value. refl)
          (λ value. refl) s.plain_rear s.rear other.rear
        ∙ count_reads front_chainring_count crankset_sources s.b₁ s.b₂ s.v fields.front
            (λ value. refl) (λ value. refl) s.plain_front s.front other.front
        ∙ updated_reads x legacy_summary (summarised b).0 (summarised b).1 false (brake_keeps b)
            "derived_from_resolved_brake_components" (sources_of brake_facts b.resolutions) b s.u
            s.b₁ q (brake_IsUpdated x b s.u s.b₁ s.brake) flat fields.brake refl refl known
            other.brake
