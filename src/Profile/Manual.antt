-- ===== src/Profile/Manual.antt =====
-- The manual writes of a profile: _apply_manual_claims and set_manual_technical_value of
-- ResolvedBikeProfileService (services/bikes.py), on the locked profile of the owner.
pub mod Writes
pub mod Agrees
pub mod Reads
pub mod Accepted
pub mod Barrier
pub mod Stale
use bike_doc.Prelude.{
  ℕ, String, Bool, true, false, not, ◌&&◌, ◌||◌, Option, none, some, List, [], ◌∷◌, ◌++◌, str_eq,
  is_some, is_none, or_else, if◌then◌else◌,
}
use bike_doc.Profile.Tree.{Json, null, is_null, Path_, json_eq}
use bike_doc.Profile.Projection.{with_technical_value}
use bike_doc.Profile.Claims.{
  Disposition, applied, supporting, rejected, superseded, Claim, ResolutionState, resolved, cleared,
  Confidence, unrated, high, Resolution, Bike, FieldDefinition, get_resolution, save_resolution,
  get_claim, set_disposition, one_of,
}
use bike_doc.Profile.Derived.{Derivation, is_resolved, resolution_at}
use bike_doc.Profile.Recompute.{then_also, recompute_derived}
use bike_doc.Profile.Revision.{Profile, saved}

-- NewBikeFactClaim, with the id that its claim gets.
pub record NewClaim : Type 0 where
  pub id : String
  pub field_path : Path_
  pub value : Json
  pub source_type : String
  pub scope_assumption : Option String
  pub explicit_correction : Bool

abbrev pub is_clear : NewClaim → Bool
is_clear c = str_eq c.source_type "manual_profile_clear"

abbrev pub is_cleared : ResolutionState → Bool
is_cleared cleared = true
is_cleared _ = false

abbrev pub is_applied : Disposition → Bool
is_applied applied = true
is_applied _ = false

-- The claim of a manual write, with the disposition that it ends with
abbrev pub manual_claim : ℕ → NewClaim → Disposition → String → Claim
manual_claim at c d reason = record {
  id = c.id;
  field_path = c.field_path;
  value = c.value;
  source_type = c.source_type;
  has_evidence_refs = false;
  scope_assumption = c.scope_assumption;
  observed_at = at;
  evidence_basis = none;
  visibility = none;
  model_score = none;
  disposition = d;
  disposition_reason = some reason;
}

-- The claim that a resolution has, if the test holds of it, with another disposition
unfoldable pub mark_current :
    (Claim → Bool) → Disposition → String → Resolution → List Claim → List Claim
unfolding get_claim set_disposition
mark_current test d reason r cs = elim r.current_claim_id [
  | none ↦ cs
  | some id ↦ elim (get_claim id cs) [
    | none ↦ cs
    | some c ↦ if test c then set_disposition id d reason cs else cs
  ]
]

-- _supersede_current_claim
abbrev pub supersede_manually : Resolution → List Claim → List Claim
supersede_manually =
    mark_current (λ c. is_applied c.disposition) superseded "superseded_by_manual_profile_write"

-- _reject_current_model_claim
abbrev pub reject_current_model_claim : Resolution → List Claim → List Claim
reject_current_model_claim =
    mark_current (λ c. str_eq c.source_type "image_inference") rejected "explicit_user_correction"

-- The resolution after a clear, with its barrier
abbrev pub cleared_resolution : ℕ → NewClaim → Resolution → Resolution
cleared_resolution at c r = record r {
  current_value = null;
  resolution_state = cleared;
  current_claim_id = some c.id;
  supporting_claim_ids = [];
  conflicting_claim_ids = [];
  effective_confidence = unrated;
  source_type = some c.source_type;
  observed_at = some at;
  resolved_at = some at;
  manual_clear_barrier_at = some at;
}

-- The resolution after an edit
abbrev pub edited_resolution : ℕ → NewClaim → Resolution → Resolution
edited_resolution at c r = record r {
  current_value = c.value;
  resolution_state = resolved;
  current_claim_id = some c.id;
  supporting_claim_ids = [];
  conflicting_claim_ids = [];
  effective_confidence = high;
  source_type = some c.source_type;
  observed_at = some at;
  resolved_at = some at;
}

-- A write that leaves the projection as it is: the claim joins the ledger, and the resolution, if it
-- is saved, names it.
unfoldable pub support_claim : ℕ → NewClaim → String → Option Resolution → Bike → Bike
unfolding save_resolution
support_claim at c reason r b = record b {
  claims = b.claims ++ manual_claim at c supporting reason ∷ [];
  resolutions = elim r [ none ↦ b.resolutions | some s ↦ save_resolution s b.resolutions ];
}

-- A write that takes the candidate projection
unfoldable pub write_claim :
    ℕ → NewClaim → (List Claim → List Claim) → Resolution → Json → Bike → Bike
unfolding save_resolution
write_claim at c mark r candidate b = record {
  technical_profile = candidate;
  resolutions = save_resolution r b.resolutions;
  claims = mark (b.claims ++ manual_claim at c applied "manual_profile_write" ∷ []);
}

-- The body of the loop, for one claim and its candidate projection
unfoldable pub write_manual : ℕ → NewClaim → Json → Bike → Bool × Bike
unfolding get_resolution support_claim write_claim mark_current
write_manual at c candidate b =
    let r : Resolution = resolution_at c.field_path b in
    if is_clear c
    then if is_cleared r.resolution_state
      then (false, support_claim at c "matches_existing_manual_clear" none b)
      else (true, write_claim at c (supersede_manually r) (cleared_resolution at c r) candidate b)
    else if json_eq r.current_value c.value && is_resolved r.resolution_state
    then (
      false,
      support_claim at c "matches_current_manual_resolution"
          (some (record r { supporting_claim_ids = r.supporting_claim_ids ++ c.id ∷ [] })) b,
    )
    else (
      true,
      write_claim at c
          (if c.explicit_correction then reject_current_model_claim r else supersede_manually r)
          (edited_resolution at c r) candidate b,
    )

-- One claim; `none` is the ValueError of the projection.
unfoldable pub apply_manual_claim : Derivation → NewClaim → Bike → Option (Bool × Bike)
unfolding with_technical_value write_manual
apply_manual_claim x c b =
    elim (with_technical_value x.registry b.technical_profile c.field_path c.value) [
      | none ↦ none
      | some candidate ↦ some (write_manual x.now c candidate b)
    ]

unfoldable pub apply_each : Derivation → List NewClaim → Bike → Option (Bool × Bike)
unfolding apply_manual_claim
apply_each x [] b = some (false, b)
apply_each x (c ∷ cs) b = then_also (apply_manual_claim x c b) (apply_each x cs)

-- _apply_manual_claims
unfoldable pub apply_manual_claims : Derivation → List NewClaim → Profile → Option (Bool × Profile)
unfolding apply_each recompute_derived
apply_manual_claims x cs p =
    saved x.now p (then_also (apply_each x cs p.bike) (recompute_derived x))

-- The claim of set_manual_technical_value for a given value and its normal form, or for a clear
abbrev pub new_manual_claim : String → Path_ → Json → Json → Bool → NewClaim
new_manual_claim id path given value correction = record {
  id = id;
  field_path = path;
  value = value;
  source_type = if is_null given then "manual_profile_clear" else "manual_profile_edit";
  scope_assumption = none;
  explicit_correction = correction && not (is_null given);
}

pub data ManualError : Type 0 where
  unknown_field read_only invalid_value invalid_profile : ManualError

pub data ManualResult : Type 0 where
  wrote : Profile → ManualResult
  failed : ManualError → ManualResult

-- set_manual_technical_value, where `normalize` is normalize_canonical_value.
unfoldable pub set_manual_technical_value :
    Derivation
    → (Path_ → Option FieldDefinition)
    → (Path_ → Json → Option Json)
    → String
    → Path_
    → Json
    → Bool
    → Profile
    → ManualResult
unfolding apply_manual_claims
set_manual_technical_value x definition normalize id path value correction p =
    elim (definition path) [
      | none ↦ failed unknown_field
      | some d ↦
          if one_of ("derived" ∷ "user_managed" ∷ []) d.volatility_class
          then failed read_only
          else elim (if is_null value then some null else normalize path value) [
            | none ↦ failed invalid_value
            | some normal ↦
                elim (apply_manual_claims x (new_manual_claim id path value normal correction ∷ [])
                  p) [ none ↦ failed invalid_profile | some (change, p') ↦ wrote p' ]
          ]
    ]
