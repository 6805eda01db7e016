-- ===== src/Profile/Claims.antt =====
-- A bike's facts: claims, the resolutions of its fields (models/bike.py), and the policies by which an
-- image claim counts (services/profile_inference_resolution.py). Model scores are only compared, and
-- are numbers of a fixed small unit. The table of canonical fields is an argument, whatever it is.
pub mod Found
use bike_doc.Prelude.{
  ℕ, String, Bool, true, false, not, ◌&&◌, ◌||◌, Option, none, some, List, [], ◌∷◌, leb, str_eq,
  text_is, is_some, is_none, if◌then◌else◌,
}
use bike_doc.Profile.Tree.{Json, null, is_null, Path_}
use bike_doc.Profile.Projection.{path_eq}

pub data Disposition : Type 0 where
  pending applied supporting conflict rejected superseded : Disposition

-- BikeFactClaim
pub record Claim : Type 0 where
  pub id : String
  pub field_path : Path_
  pub value : Json
  pub source_type : String
  pub has_evidence_refs : Bool
  pub scope_assumption : Option String
  pub observed_at : ℕ
  pub evidence_basis : Option String
  pub visibility : Option String
  pub model_score : Option ℕ
  pub disposition : Disposition
  pub disposition_reason : Option String

pub data ResolutionState : Type 0 where
  unknown resolved disputed cleared : ResolutionState

pub data Confidence : Type 0 where
  unrated low medium high : Confidence

-- BikeFieldResolution
pub record Resolution : Type 0 where
  pub field_path : Path_
  pub current_value : Json
  pub resolution_state : ResolutionState
  pub current_claim_id : Option String
  pub supporting_claim_ids : List String
  pub conflicting_claim_ids : List String
  pub effective_confidence : Confidence
  pub source_type : Option String
  pub observed_at : Option ℕ
  pub resolved_at : Option ℕ
  pub manual_clear_barrier_at : Option ℕ

-- The locked profile, with its resolutions and claims.
pub record Bike : Type 0 where
  pub technical_profile : Json
  pub resolutions : List Resolution
  pub claims : List Claim

-- CanonicalField
pub record FieldDefinition : Type 0 where
  pub volatility_class : String
  pub permitted_evidence_bases : List String
  pub image_auto_supersedes : List String
  pub requires_readable_marking : Bool
  pub requires_direct_evidence : Bool
  pub requires_counted_evidence : Bool

pub data PolicyMode : Type 0 where
  shadow evaluated provisional : PolicyMode

-- ActiveFieldPolicy
pub record FieldPolicy : Type 0 where
  pub auto_fill_threshold : ℕ
  pub auto_overwrite_threshold : Option ℕ
  pub precision_gate_passed : Bool
  pub accepted_baseline_version : Option String
  pub regression_evidence_passed : Bool
  pub promoted : Bool

-- The resolver's policy, the table of canonical fields with the check of a value (get_canonical_field),
-- and the time of the call.
pub record Resolver : Type 0 where
  pub mode : PolicyMode
  pub policies : Path_ → String → Option FieldPolicy
  pub registry : List Path_
  pub definition : Path_ → Option FieldDefinition
  pub accepts : Path_ → Json → Bool
  pub now : ℕ

-- ActiveFieldPolicy.is_promoted
abbrev pub is_promoted : FieldPolicy → Bool
is_promoted p =
    p.promoted
    && p.precision_gate_passed
    && is_some p.accepted_baseline_version
    && p.regression_evidence_passed

abbrev pub is_shadow : PolicyMode → Bool
is_shadow shadow = true
is_shadow _ = false

abbrev pub is_evaluated : PolicyMode → Bool
is_evaluated evaluated = true
is_evaluated _ = false

abbrev pub one_of : List String → String → Bool
one_of [] t = false
one_of (s ∷ ss) t = str_eq s t || one_of ss t

-- The kind of evidence that a field insists on.
abbrev pub is_fit : FieldDefinition → String → Bool
is_fit d basis =
    (not d.requires_readable_marking || str_eq basis "readable_marking")
    && (not d.requires_direct_evidence || str_eq basis "direct_visual")
    && (not d.requires_counted_evidence
        || one_of ("counted_visual" ∷ "readable_marking" ∷ []) basis)

-- ProfileResolverPolicy.active_policy_for, for the definition of the claim's field
unfoldable pub active_policy_for : Resolver → FieldDefinition → Claim → Option FieldPolicy
active_policy_for x d c = elim c.evidence_basis [
  | none ↦ none
  | some basis ↦
      if is_shadow x.mode || not (is_fit d basis)
      then none
      else elim (x.policies c.field_path basis) [
        | none ↦ none
        | some p ↦ if is_evaluated x.mode && not (is_promoted p) then none else some p
      ]
]

-- _is_valid_image_claim, with the definition of the claim's field
unfoldable pub valid_field : Resolver → Claim → Option FieldDefinition
valid_field x c = elim (x.definition c.field_path) [
  | none ↦ none
  | some d ↦ elim c.evidence_basis [
    | none ↦ none
    | some basis ↦
        if x.accepts c.field_path c.value
          && not (one_of ("derived" ∷ "user_managed" ∷ []) d.volatility_class)
          && one_of d.permitted_evidence_bases basis
          && c.has_evidence_refs
        then some d
        else none
  ]
]

-- get_resolution
unfoldable pub get_resolution : Path_ → List Resolution → Option Resolution
get_resolution path [] = none
get_resolution path (r ∷ rs) = if path_eq r.field_path path then some r else get_resolution path rs

-- save_resolution: the row of its field, or a new one.
unfoldable pub save_resolution : Resolution → List Resolution → List Resolution
save_resolution r [] = r ∷ []
save_resolution r (s ∷ ss) =
    let rest : List Resolution = save_resolution r ss in
    if path_eq s.field_path r.field_path then r ∷ ss else s ∷ rest

-- get_claim
unfoldable pub get_claim : String → List Claim → Option Claim
get_claim id [] = none
get_claim id (c ∷ cs) = if str_eq c.id id then some c else get_claim id cs

unfoldable pub set_disposition : String → Disposition → String → List Claim → List Claim
set_disposition id d reason [] = []
set_disposition id d reason (c ∷ cs) =
    let rest : List Claim = set_disposition id d reason cs in
    if str_eq c.id id
    then record c { disposition = d; disposition_reason = some reason } ∷ cs
    else c ∷ rest

-- The resolution that a field without one starts from.
abbrev pub new_resolution : Path_ → Resolution
new_resolution path = record {
  field_path = path;
  current_value = null;
  resolution_state = unknown;
  current_claim_id = none;
  supporting_claim_ids = [];
  conflicting_claim_ids = [];
  effective_confidence = unrated;
  source_type = none;
  observed_at = none;
  resolved_at = none;
  manual_clear_barrier_at = none;
}
