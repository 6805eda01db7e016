-- ===== src/Profile/Recompute.antt =====
-- The derived facts of a profile (services/profile_inference_resolution.py): the brake summary and the
-- drivetrain counts, computed again from the resolutions of the components.
pub mod Again
pub mod Counts
pub mod Steps
pub mod Idempotent
pub mod Agrees
pub mod Unchanged
pub mod Elsewhere
use bike_doc.Prelude.{
  ℕ, ◌==◌, String, Bool, true, false, not, ◌&&◌, ◌||◌, Option, none, some, List, [], ◌∷◌, ◌++◌, leb,
  str_eq, is_some, is_none, or_else, if◌then◌else◌, max,
}
use bike_doc.Profile.Tree.{Json, null, text, is_null, is_text, Path_, json_eq}
use bike_doc.Profile.Projection.{with_technical_value}
use bike_doc.Profile.Claims.{
  Disposition, applied, Claim, ResolutionState, unknown, resolved, disputed, cleared, Confidence,
  unrated, high, Resolution, Bike, get_resolution, save_resolution, new_resolution, one_of,
}
use bike_doc.Profile.Application.{supersede_current_claim}
use bike_doc.Profile.Derived.{
  is_empty, Derivation, sources_of, is_resolved, any_disputed, open_conflicts, is_unset_as,
  update_derived, resolution_at,
}

abbrev pub legacy_summary : Path_
legacy_summary = "brakes" ∷ "legacy_summary" ∷ []

abbrev pub brake_fact : String → String → Path_
brake_fact position leaf = "brakes" ∷ position ∷ leaf ∷ []

abbrev pub brake_facts : List Path_
brake_facts =
    brake_fact "front" "mechanism"
    ∷ brake_fact "front" "actuation"
    ∷ brake_fact "rear" "mechanism"
    ∷ brake_fact "rear" "actuation"
    ∷ []

-- resolved_value
abbrev pub resolved_value : Option Resolution → Json
resolved_value none = null
resolved_value (some r) = if is_resolved r.resolution_state then r.current_value else null

abbrev pub is_rim : Json → Bool
is_rim j =
    is_text j "rim_caliper"
    || is_text j "rim_cantilever"
    || is_text j "rim_v_brake"
    || is_text j "rim_u_brake"
    || is_text j "rim_other"

abbrev pub both_text : Json → Json → String → Bool
both_text a b t = is_text a t && is_text b t

-- The summary of both mechanisms and actuations
unfoldable pub brake_summary : Json → Json → Json → Json → Json
brake_summary fm fa rm ra =
    if both_text fm rm "disc" && both_text fa ra "mechanical"
    then text "mechanical_disc"
    else if both_text fm rm "disc" && both_text fa ra "hydraulic"
    then text "hydraulic_disc"
    else if is_rim fm && is_rim rm
    then text "rim"
    else null

-- The summary of the resolved facts, and whether it is disputed.
abbrev pub summary_of : Bool → Json → Json → Json → Json → Json × Bool
summary_of true fm fa rm ra = (null, true)
summary_of false fm fa rm ra = (
  brake_summary fm fa rm ra,
  is_null (brake_summary fm fa rm ra) && not (is_null fm) && not (is_null rm),
)

unfoldable pub summarised : Bike → Json × Bool
unfolding get_resolution
summarised b =
    let value : Path_ → Json = λ path. resolved_value (get_resolution path b.resolutions) in
    summary_of (any_disputed (sources_of brake_facts b.resolutions))
      (value (brake_fact "front" "mechanism")) (value (brake_fact "front" "actuation"))
      (value (brake_fact "rear" "mechanism")) (value (brake_fact "rear" "actuation"))

-- recompute_derived_brake_summary
unfoldable pub recompute_brake_summary : Derivation → Bike → Option (Bool × Bike)
unfolding get_resolution summarised update_derived
recompute_brake_summary x b =
    let sources : List Resolution = sources_of brake_facts b.resolutions in
    update_derived x legacy_summary (summarised b) "derived_from_resolved_brake_components" false
      ((is_none (get_resolution legacy_summary b.resolutions) && not (summarised b).1)
        || is_unset_as (summarised b).1 (open_conflicts (summarised b).1 sources)
            (resolution_at legacy_summary b))
      sources b

-- The values of the resolved sources, each once. A source has no object as its value.
abbrev pub is_value_in : Json → List Json → Bool
is_value_in j [] = false
is_value_in j (k ∷ ks) = json_eq j k || is_value_in j ks

abbrev pub values_of : List Resolution → List Json
values_of [] = []
values_of (r ∷ rs) =
    let rest : List Json = values_of rs in
    if is_resolved r.resolution_state
      && not (is_null r.current_value)
      && not (is_value_in r.current_value rest)
    then r.current_value ∷ rest
    else rest

-- The count on which the sources agree, and whether they do not.
abbrev pub agreed : Bool → List Json → Json × Bool
agreed dispute [] = (null, dispute)
agreed dispute (j ∷ []) = (if dispute then null else j, dispute)
agreed dispute (j ∷ k ∷ js) = (null, true)

-- _recompute_derived_count
unfoldable pub recompute_count : Derivation → Path_ → List Path_ → Bike → Option (Bool × Bike)
unfolding get_resolution update_derived
recompute_count x path source_paths b =
    let sources : List Resolution = sources_of source_paths b.resolutions in
    let found : Json × Bool = agreed (any_disputed sources) (values_of sources) in
    update_derived x path found "derived_from_resolved_drivetrain_components" true
      (is_some (get_resolution path b.resolutions)
        && is_unset_as found.1 (open_conflicts found.1 sources) (resolution_at path b))
      sources b

-- One operation after another, and whether any changed the profile.
abbrev pub then_also : Option (Bool × Bike) → (Bike → Option (Bool × Bike)) → Option (Bool × Bike)
then_also none f = none
then_also (some (change, b)) f = elim (f b) [
  | none ↦ none
  | some (more, b') ↦ some (change || more, b')
]

abbrev pub drivetrain : String → String → Path_
drivetrain part leaf = "drivetrain" ∷ part ∷ leaf ∷ []

abbrev pub front_chainring_count : Path_
front_chainring_count = "drivetrain" ∷ "front_chainring_count" ∷ []

abbrev pub rear_speed_count : Path_
rear_speed_count = "drivetrain" ∷ "rear_speed_count" ∷ []

-- recompute_derived_drivetrain_counts
unfoldable pub recompute_drivetrain_counts : Derivation → Bike → Option (Bool × Bike)
unfolding recompute_count
recompute_drivetrain_counts x b =
    then_also
      (recompute_count x front_chainring_count (drivetrain "crankset" "chainring_count" ∷ []) b)
      (recompute_count x rear_speed_count (
        drivetrain "rear_cluster" "speed_count"
        ∷ drivetrain "rear_shifter" "speed_count"
        ∷ drivetrain "gear_unit" "speed_count"
        ∷ []))

-- Both, in the order in which a profile is written.
unfoldable pub recompute_derived : Derivation → Bike → Option (Bool × Bike)
unfolding recompute_brake_summary recompute_drivetrain_counts
recompute_derived x b = then_also (recompute_brake_summary x b) (recompute_drivetrain_counts x)
