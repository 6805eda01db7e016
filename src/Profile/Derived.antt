-- ===== src/Profile/Derived.antt =====
-- How a derived field of a profile gets and loses its value
-- (services/profile_inference_resolution.py).
pub mod Updates
pub mod Settled
pub mod Again
use bike_doc.Prelude.{
  ℕ, ◌==◌, String, Bool, true, false, not, ◌&&◌, ◌||◌, Option, none, some, List, [], ◌∷◌, ◌++◌, leb,
  str_eq, is_some, is_none, or_else, if◌then◌else◌, max,
}
use bike_doc.Profile.Tree.{Json, null, text, is_null, is_text, Path_, json_eq}
use bike_doc.Profile.Projection.{with_technical_value}
use bike_doc.Profile.Claims.{
  Disposition, applied, Claim, ResolutionState, unknown, resolved, disputed, cleared, Confidence,
  unrated, high, Resolution, Bike, get_resolution, save_resolution, new_resolution, one_of,
}
use bike_doc.Profile.Application.{supersede_current_claim}

abbrev pub is_empty : List Resolution → Bool
is_empty [] = true
is_empty (r ∷ rs) = false

-- The canonical paths, the time, and the ids that the claims of derived fields get.
pub record Derivation : Type 0 where
  pub registry : List Path_
  pub now : ℕ
  pub claim_id : Path_ → String

abbrev pub with_source : Option Resolution → List Resolution → List Resolution
with_source none rs = rs
with_source (some r) rs = r ∷ rs

-- The resolutions that there are, in the order of their paths.
abbrev pub sources_of : List Path_ → List Resolution → List Resolution
sources_of [] rs = []
sources_of (p ∷ ps) rs = with_source (get_resolution p rs) (sources_of ps rs)

abbrev pub is_resolved : ResolutionState → Bool
is_resolved resolved = true
is_resolved _ = false

abbrev pub is_disputed : ResolutionState → Bool
is_disputed disputed = true
is_disputed _ = false

abbrev pub any_disputed : List Resolution → Bool
any_disputed [] = false
any_disputed (r ∷ rs) = is_disputed r.resolution_state || any_disputed rs

abbrev pub id_list : Option String → List String
id_list none = []
id_list (some id) = id ∷ []

abbrev pub all_ids : List Resolution → List String
all_ids [] = []
all_ids (r ∷ rs) = id_list r.current_claim_id ++ (r.conflicting_claim_ids ++ all_ids rs)

-- `dict.fromkeys`, after what was seen: each id once, where it came first.
abbrev pub unique_after : List String → List String → List String
unique_after seen [] = []
unique_after seen (x ∷ xs) =
    let rest : List String = unique_after (x ∷ seen) xs in if one_of seen x then rest else x ∷ rest

abbrev pub conflict_ids : List Resolution → List String
conflict_ids rs = unique_after [] (all_ids rs)

abbrev pub ids_eq : List String → List String → Bool
ids_eq [] [] = true
ids_eq (x ∷ xs) (y ∷ ys) = str_eq x y && ids_eq xs ys
ids_eq _ _ = false

-- `max(..., default=now)` of the times of observation
abbrev pub latest_observed : Option ℕ → List Resolution → Option ℕ
latest_observed at [] = at
latest_observed at (r ∷ rs) = elim r.observed_at [
  | none ↦ latest_observed at rs
  | some t ↦ latest_observed (some (elim at [ none ↦ t | some u ↦ max u t ])) rs
]

abbrev pub state_eq : ResolutionState → ResolutionState → Bool
state_eq unknown unknown = true
state_eq resolved resolved = true
state_eq disputed disputed = true
state_eq cleared cleared = true
state_eq _ _ = false

abbrev pub open_state : Bool → ResolutionState
open_state true = disputed
open_state false = unknown

-- The conflicts that are kept with a derived field without a value
abbrev pub open_conflicts : Bool → List Resolution → List String
open_conflicts dispute rs = if dispute then conflict_ids rs else []

-- A derived field that has no value already, in that state.
abbrev pub is_unset_as : Bool → List String → Resolution → Bool
is_unset_as dispute conflicts r =
    is_null r.current_value
    && state_eq r.resolution_state (open_state dispute)
    && ids_eq r.conflicting_claim_ids conflicts

-- The resolution of a derived field that has no value. Only a count forgets when it was observed.
abbrev pub unset : Derivation → Bool → List String → Bool → Resolution → Resolution
unset x dispute conflicts forgets r = record r {
  current_value = null;
  current_claim_id = none;
  supporting_claim_ids = [];
  conflicting_claim_ids = conflicts;
  resolution_state = open_state dispute;
  effective_confidence = unrated;
  source_type = some "derived_resolution";
  observed_at = if forgets then none else r.observed_at;
  resolved_at = some x.now;
}

-- The write of a value with its resolution; `none` is the ValueError of the projection.
unfoldable pub write_derived :
    List Path_ → Path_ → Json → Resolution → List Claim → Bike → Option (Bool × Bike)
unfolding with_technical_value save_resolution
write_derived registry path value r claims b =
    elim (with_technical_value registry b.technical_profile path value) [
      | none ↦ none
      | some next ↦ some (
        true,
        record {
          technical_profile = next;
          resolutions = save_resolution r b.resolutions;
          claims = claims;
        },
      )
    ]

-- The branch in which a derived field loses its value.
unfoldable pub unset_derived :
    Derivation → Path_ → Bool → List String → Bool → Resolution → Bike → Option (Bool × Bike)
unfolding write_derived supersede_current_claim
unset_derived x path dispute conflicts forgets r b =
    write_derived x.registry path null (unset x dispute conflicts forgets r)
      (supersede_current_claim r b.claims) b

abbrev pub derived_claim : Derivation → Path_ → Json → String → ℕ → Claim
derived_claim x path value reason at = record {
  id = x.claim_id path;
  field_path = path;
  value = value;
  source_type = "derived_resolution";
  has_evidence_refs = false;
  scope_assumption = none;
  observed_at = at;
  evidence_basis = none;
  visibility = none;
  model_score = none;
  disposition = applied;
  disposition_reason = some reason;
}

abbrev pub derived_resolution : Derivation → Path_ → Json → ℕ → Resolution → Resolution
derived_resolution x path value at r = record r {
  current_value = value;
  resolution_state = resolved;
  current_claim_id = some (x.claim_id path);
  supporting_claim_ids = [];
  conflicting_claim_ids = [];
  effective_confidence = high;
  source_type = some "derived_resolution";
  observed_at = some at;
  resolved_at = some x.now;
}

-- The branch in which it gets one, unless it has it.
unfoldable pub set_derived :
    Derivation → Path_ → Json → String → List Resolution → Resolution → Bike → Option (Bool × Bike)
unfolding write_derived supersede_current_claim
set_derived x path value reason sources r b =
    let at : ℕ = or_else (latest_observed none sources) x.now in
    if json_eq r.current_value value && is_resolved r.resolution_state
    then some (false, b)
    else write_derived x.registry path value (derived_resolution x path value at r)
        (supersede_current_claim r b.claims ++ derived_claim x path value reason at ∷ []) b

abbrev pub resolution_at : Path_ → Bike → Resolution
resolution_at path b = or_else (get_resolution path b.resolutions) (new_resolution path)

-- What both computations do with a value, or none, and whether it is disputed: `keeps` tells that the
-- field has no value already, and stays as it is.
unfoldable pub update_derived :
    Derivation
    → Path_
    → Json × Bool
    → String
    → Bool
    → Bool
    → List Resolution
    → Bike
    → Option (Bool × Bike)
unfolding unset_derived set_derived get_resolution
update_derived x path found reason forgets keeps sources b =
    let (value, dispute) = found in
    let r : Resolution = resolution_at path b in
    if is_empty sources
    then some (false, b)
    else if not (is_null value)
    then set_derived x path value reason sources r b
    else if keeps
    then some (false, b)
    else unset_derived x path dispute (open_conflicts dispute sources) forgets r b
