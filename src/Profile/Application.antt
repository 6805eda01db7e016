-- ===== src/Profile/Application.antt =====
-- What an applied claim writes: its resolution, the projection, and the resolutions of the fields that
-- lost their value (services/profile_inference_resolution.py).
pub mod Fates
pub mod Applied
pub mod Lost
pub mod Unset
use bike_doc.Prelude.{
  ℕ, String, Bool, true, false, not, ◌&&◌, ◌||◌, Option, none, some, List, [], ◌∷◌, ◌++◌, leb, ltb,
  ◌==◌, order_by, text_is, is_some, or_else, if◌then◌else◌,
}
use Prim.Native.String.{◌++◌ as append}
use bike_doc.Jobs.Table.Scan.{text_lt}
use bike_doc.Profile.Tree.{Json, null, is_null, Path_, technical_value, json_eq}
use bike_doc.Profile.Projection.{path_eq, ends_in, with_technical_value}
use bike_doc.Profile.Claims.{
  Disposition, pending, applied, supporting, conflict, rejected, superseded, Claim, ResolutionState,
  unknown, resolved, disputed, cleared, Confidence, unrated, low, medium, high, Resolution, Bike,
  FieldDefinition, FieldPolicy, Resolver, get_resolution, save_resolution, get_claim,
  set_disposition, one_of,
}

abbrev pub is_held : Disposition → Bool
is_held applied = true
is_held supporting = true
is_held _ = false

-- _supersede_current_claim
unfoldable pub supersede_current_claim : Resolution → List Claim → List Claim
unfolding get_claim set_disposition
supersede_current_claim r cs = elim r.current_claim_id [
  | none ↦ cs
  | some id ↦ elim (get_claim id cs) [
    | none ↦ cs
    | some c ↦
        if is_held c.disposition
        then set_disposition id superseded "superseded_by_newer_installed_evidence" cs
        else cs
  ]
]

-- A resolution that _retire_invalidated_resolutions resets.
abbrev pub retired : ℕ → Resolution → Resolution
retired now r = record r {
  current_value = null;
  resolution_state = unknown;
  current_claim_id = none;
  supporting_claim_ids = [];
  conflicting_claim_ids = [];
  effective_confidence = unrated;
  source_type = none;
  observed_at = none;
  resolved_at = some now;
}

-- Whether a field lost its value between two projections.
abbrev pub is_lost : Json → Json → Path_ → Bool
is_lost previous next path =
    not (is_null (technical_value path previous)) && is_null (technical_value path next)

-- One round of _retire_invalidated_resolutions
unfoldable pub retire_one : ℕ → Json → Json → Path_ → Path_ → Bike → Bike
unfolding get_resolution save_resolution supersede_current_claim
retire_one now previous next retained path b =
    if path_eq path retained || not (is_lost previous next path)
    then b
    else elim (get_resolution path b.resolutions) [
      | none ↦ b
      | some r ↦ if is_null r.current_value then b else record b {
        resolutions = save_resolution (retired now r) b.resolutions;
        claims = supersede_current_claim r b.claims;
      }
    ]

-- _retire_invalidated_resolutions, over the canonical paths
unfoldable pub retire_invalidated : ℕ → Json → Json → Path_ → List Path_ → Bike → Bike
unfolding retire_one
retire_invalidated now previous next retained [] b = b
retire_invalidated now previous next retained (p ∷ ps) b =
    retire_invalidated now previous next retained ps (retire_one now previous next retained p b)

-- The resolution that an applied claim writes.
abbrev pub applied_resolution : ℕ → Claim → Confidence → Resolution → Resolution
applied_resolution now c confidence r = record r {
  current_value = c.value;
  resolution_state = resolved;
  current_claim_id = some c.id;
  supporting_claim_ids = [];
  conflicting_claim_ids = [];
  effective_confidence = confidence;
  source_type = some c.source_type;
  observed_at = some c.observed_at;
  resolved_at = some now;
}

-- An applied claim; `none` is the ValueError of the projection.
unfoldable pub apply_claim :
    Resolver → Claim → String → Confidence → Resolution → Bike → Option Bike
unfolding with_technical_value set_disposition supersede_current_claim retire_invalidated
apply_claim x c reason confidence r b =
    elim (with_technical_value x.registry b.technical_profile c.field_path c.value) [
      | none ↦ none
      | some next ↦
          let claims : List Claim = set_disposition c.id applied reason b.claims in
          let kept : Bike =
            retire_invalidated x.now b.technical_profile next c.field_path x.registry
              (record b { claims = supersede_current_claim r claims }) in
          some (record kept {
            technical_profile = next;
            resolutions =
                save_resolution (applied_resolution x.now c confidence r) kept.resolutions;
          })
    ]
