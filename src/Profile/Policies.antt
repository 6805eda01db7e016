-- ===== src/Profile/Policies.antt =====
-- The policies of the resolver: ProfileResolverPolicy.bootstrap_v1 and from_deployment
-- (services/profile_inference_resolution.py). A threshold is a number of hundredths of the unit in
-- which a score of one is written.
pub mod Deployed
use bike_doc.Prelude.{
  ℕ, ◌*◌, String, Bool, true, false, not, ◌&&◌, ◌||◌, Option, none, some, List, [], ◌∷◌, ◌++◌,
  str_eq, if◌then◌else◌,
}
use bike_doc.Profile.Tree.{Path_}
use bike_doc.Profile.Projection.{path_eq}
use bike_doc.Profile.Claims.{
  FieldDefinition, FieldPolicy, PolicyMode, shadow, evaluated, provisional, is_promoted, one_of,
}

-- The entry of a field in the canonical registry
pub record RegisteredField : Type 0 where
  pub definition : FieldDefinition
  pub image_auto_fill : Bool
  pub policy_bundle : String

-- A policy with its key, the field path and the evidence class
pub record Entry : Type 0 where
  pub field_path : Path_
  pub evidence_class : String
  pub policy : FieldPolicy

abbrev pub has_key : Path_ → String → Entry → Bool
has_key path basis e = path_eq e.field_path path && str_eq e.evidence_class basis

-- The policy with a key
unfoldable pub find_entry : Path_ → String → List Entry → Option Entry
find_entry path basis [] = none
find_entry path basis (e ∷ es) = if has_key path basis e then some e else find_entry path basis es

-- bundle_thresholds
abbrev pub bundle_thresholds : ℕ → String → Option (ℕ × Option ℕ)
bundle_thresholds unit bundle =
    if str_eq bundle "visual_descriptive"
    then some (90 * unit, none)
    else if str_eq bundle "installed_mechanism"
    then some (92 * unit, some (97 * unit))
    else if str_eq bundle "readable_identity"
    then some (90 * unit, some (95 * unit))
    else if str_eq bundle "counted_spec"
    then some (95 * unit, some (98 * unit))
    else if str_eq bundle "exact_dimension"
    then some (95 * unit, some (98 * unit))
    else none

abbrev pub bootstrap_policy : ℕ × Option ℕ → FieldPolicy
bootstrap_policy (fill, overwrite) = record {
  auto_fill_threshold = fill;
  auto_overwrite_threshold = overwrite;
  precision_gate_passed = true;
  accepted_baseline_version = some "programmatic";
  regression_evidence_passed = true;
  promoted = true;
}

abbrev pub bootstrap_entries : Path_ → FieldPolicy → List String → List Entry
bootstrap_entries path p [] = []
bootstrap_entries path p (basis ∷ bases) =
    let rest : List Entry = bootstrap_entries path p bases in
    if str_eq basis "derived_visual"
    then rest
    else record { field_path = path; evidence_class = basis; policy = p } ∷ rest

-- bootstrap_v1, over the canonical registry
unfoldable pub bootstrap_v1 : ℕ → List (Path_ × RegisteredField) → List Entry
bootstrap_v1 unit [] = []
bootstrap_v1 unit ((path, f) ∷ fs) =
    let rest : List Entry = bootstrap_v1 unit fs in
    elim (bundle_thresholds unit f.policy_bundle) [
      | none ↦ rest
      | some thresholds ↦
          if f.image_auto_fill
          then bootstrap_entries path (bootstrap_policy thresholds)
              f.definition.permitted_evidence_bases
            ++ rest
          else rest
    ]

pub data PolicyError : Type 0 where
  unknown_mode not_canonical duplicate_policy not_permitted : PolicyError
  needs_marking needs_direct needs_counted not_auto_filled : PolicyError

abbrev pub is_configured : Path_ → String → List Entry → Bool
is_configured path basis [] = false
is_configured path basis (e ∷ es) = has_key path basis e || is_configured path basis es

-- The checks of a configured policy of this evidence class on a canonical field
abbrev pub field_error : Bool → RegisteredField → String → Option PolicyError
field_error is_duplicate f basis =
    if is_duplicate
    then some duplicate_policy
    else if not (one_of f.definition.permitted_evidence_bases basis)
    then some not_permitted
    else if f.definition.requires_readable_marking && not (str_eq basis "readable_marking")
    then some needs_marking
    else if f.definition.requires_direct_evidence && not (str_eq basis "direct_visual")
    then some needs_direct
    else if f.definition.requires_counted_evidence
        && not (one_of ("counted_visual" ∷ "readable_marking" ∷ []) basis)
    then some needs_counted
    else if not f.image_auto_fill
    then some not_auto_filled
    else none

-- The checks of one configured policy; `none` is no error.
unfoldable pub configured_error :
    (Path_ → Option RegisteredField) → List Entry → Entry → Option PolicyError
configured_error fields seen e = elim (fields e.field_path) [
  | none ↦ some not_canonical
  | some f ↦ field_error (is_configured e.field_path e.evidence_class seen) f e.evidence_class
]

pub data Active : Type 0 where
  active : List Entry → Active
  raised : PolicyError → Active

-- A promoted policy becomes active, unless it or a later one raises.
abbrev pub activate : Option PolicyError → Entry → Active → Active
activate (some error) e rest = raised error
activate none e (raised error) = raised error
activate none e (active found) = active (if is_promoted e.policy then e ∷ found else found)

-- The loop over the configured policies, after those that were seen
unfoldable pub active_policies : (Path_ → Option RegisteredField) → List Entry → List Entry → Active
unfolding configured_error
active_policies fields seen [] = active []
active_policies fields seen (e ∷ es) =
    activate (configured_error fields seen e) e (active_policies fields (e ∷ seen) es)

pub data PolicyResult : Type 0 where
  loaded : PolicyMode → List Entry → PolicyResult
  invalid : PolicyError → PolicyResult

-- from_deployment
unfoldable pub from_deployment :
    ℕ
    → List (Path_ × RegisteredField)
    → (Path_ → Option RegisteredField)
    → String
    → List Entry
    → PolicyResult
unfolding active_policies bootstrap_v1
from_deployment unit registry fields mode policies =
    let found : Active = active_policies fields [] policies in
    if str_eq mode "shadow"
    then loaded shadow []
    else if str_eq mode "bootstrap-v1"
    then loaded provisional (bootstrap_v1 unit registry)
    else if not (one_of ("evaluated" ∷ "production" ∷ []) mode)
    then invalid unknown_mode
    else elim found [ raised error ↦ invalid error | active es ↦ loaded evaluated es ]
