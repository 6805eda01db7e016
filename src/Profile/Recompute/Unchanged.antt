-- ===== src/Profile/Recompute/Unchanged.antt =====
-- When the computation of the derived facts reports that nothing changed.
use bike_doc.Prelude.{Bool, true, false, ◌||◌, some, List, ◌≡◌, ◌∙◌, inl, inr, sym, arith}
use bike_doc.Profile.Tree.{Json, Path_}
use bike_doc.Profile.Claims.{Resolution, Bike}
use bike_doc.Profile.Derived.{Derivation, sources_of}
use bike_doc.Profile.Derived.Settled.{IsUpdated}
use bike_doc.Profile.Recompute.Again.{brake_keeps, brake_IsUpdated}
use bike_doc.Profile.Recompute.Counts.{ArePlainSources, tallied, count_keeps, count_IsUpdated}
use bike_doc.Profile.Recompute.Steps.{
  derived-Steps, crankset_sources, speed_sources, HasPlainCounts,
}
use bike_doc.Profile.Recompute.{
  legacy_summary, brake_facts, summarised, recompute_count, recompute_derived,
  front_chainring_count, rear_speed_count,
}

pub neither : (u v : Bool) → false ≡ (u || v) → (u ≡ false) × (v ≡ false)
neither u v h = ground arith

not_updated :
    (x : Derivation) (path : Path_) (value : Json) (dispute forgets keeps : Bool) (reason : _)
    (sources : List Resolution) (b : Bike) (w : Bool) (b' : Bike)
    → IsUpdated x path value dispute reason forgets keeps sources b w b'
    → w ≡ false
    → b' ≡ b
not_updated x path value dispute forgets keeps reason sources b w b' (inl u) h = u.1
not_updated x path value dispute forgets keeps reason sources b w b' (inr (_, k, _, _, _)) h =
    cc (h, k)

count_unchanged :
    (x : Derivation) (path : Path_) (source_paths : List Path_) (b b' : Bike) (w : Bool)
    → ArePlainSources x path source_paths b
    → recompute_count x path source_paths b ≡ some (w, b')
    → w ≡ false
    → b' ≡ b
count_unchanged x path source_paths b b' w plain e h =
    let sources = sources_of source_paths b.resolutions in
    not_updated x path (tallied sources).0 (tallied sources).1 true
      (count_keeps x path source_paths sources b) "derived_from_resolved_drivetrain_components"
      sources b w b' (count_IsUpdated x path source_paths b w b' plain e) h

-- If no change is reported, the profile is as it was.
pub recompute_derived_unchanged :
    (x : Derivation) (b b' : Bike) (w : Bool)
    → HasPlainCounts x b
    → recompute_derived x b ≡ some (w, b')
    → w ≡ false
    → b' ≡ b
recompute_derived_unchanged x b b' w plain e h =
    let s = derived-Steps x b b' w plain e in
    let first = neither s.u (s.v || s.z) (sym h ∙ s.change) in
    let later = neither s.v s.z (sym first.1) in
    count_unchanged x rear_speed_count speed_sources s.b₂ b' s.z s.plain_rear s.rear later.1
    ∙ count_unchanged x front_chainring_count crankset_sources s.b₁ s.b₂ s.v s.plain_front s.front
        later.0
    ∙ not_updated x legacy_summary (summarised b).0 (summarised b).1 false (brake_keeps b)
        "derived_from_resolved_brake_components" (sources_of brake_facts b.resolutions) b s.u s.b₁
        (brake_IsUpdated x b s.u s.b₁ s.brake) first.0
