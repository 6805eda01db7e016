-- ===== src/Profile/Resolver.antt =====
-- ProfileInferenceResolver.resolve (services/profile_inference_resolution.py): the loop over the
-- claims, each of which is set aside or judged against the resolution of its field.
pub mod Cases
pub mod Passed
pub mod Guarded
pub mod Unchanged
pub mod Agrees
pub mod Invariant
pub mod Loop
pub mod Barred
pub mod Written
pub mod Flat
use bike_doc.Prelude.{
  ℕ, String, Bool, true, false, not, ◌&&◌, ◌||◌, Option, none, some, List, [], ◌∷◌, ◌++◌, leb, ltb,
  ◌==◌, order_by, text_is, is_some, or_else, if◌then◌else◌,
}
use Prim.Native.String.{◌++◌ as append}
use bike_doc.Jobs.Table.Scan.{text_lt}
use bike_doc.Profile.Tree.{Json, null, is_null, Path_, technical_value, json_eq}
use bike_doc.Profile.Projection.{path_eq, ends_in, with_technical_value}
use bike_doc.Profile.Claims.{
  Disposition, pending, applied, supporting, conflict, rejected, superseded, Claim, ResolutionState,
  unknown, resolved, disputed, cleared, Confidence, unrated, low, medium, high, Resolution, Bike,
  FieldDefinition, FieldPolicy, Resolver, get_resolution, save_resolution, get_claim,
  set_disposition, one_of,
}
use bike_doc.Profile.Application.{apply_claim}
use bike_doc.Profile.Gates.{Verdict, aside, eligible, is_inner, verdict}

abbrev pub reaches : Option ℕ → ℕ → Bool
reaches none score = false
reaches (some threshold) score = leb threshold score

abbrev pub is_after : ℕ → Option ℕ → Bool
is_after at none = false
is_after at (some before) = ltb before at

abbrev pub is_source : List String → Option String → Bool
is_source sources none = false
is_source sources (some source) = one_of sources source

-- _effective_confidence
unfoldable pub effective_confidence : ℕ → FieldPolicy → Confidence
effective_confidence score p =
    if reaches p.auto_overwrite_threshold score
    then high
    else if leb p.auto_fill_threshold score
    then medium
    else low

abbrev pub rank : Confidence → ℕ
rank unrated = 0
rank low = 1
rank medium = 2
rank high = 3

-- _stronger_confidence
abbrev pub stronger_confidence : Confidence → Confidence → Confidence
stronger_confidence left right = if leb (rank right) (rank left) then left else right

abbrev pub is_low : Confidence → Bool
is_low c = ltb (rank c) 2

-- A current value that is missing, in the state unknown or cleared
abbrev pub is_open : ResolutionState → Bool
is_open unknown = true
is_open cleared = true
is_open _ = false

abbrev pub current_is_unknown : Resolution → Bool
current_is_unknown r = is_null r.current_value && is_open r.resolution_state

-- _can_supersede_current
unfoldable pub can_supersede : FieldDefinition → FieldPolicy → ℕ → Claim → Resolution → Bool
can_supersede d p score c r =
    not (is_null r.current_value)
    && is_source d.image_auto_supersedes r.source_type
    && is_after c.observed_at r.observed_at
    && reaches p.auto_overwrite_threshold score

-- A claim that agrees with the current value
abbrev pub supported : Claim → Confidence → Resolution → Resolution
supported c confidence r = record r {
  supporting_claim_ids = r.supporting_claim_ids ++ c.id ∷ [];
  effective_confidence = stronger_confidence r.effective_confidence confidence;
  resolution_state = elim r.resolution_state [ unknown ↦ resolved | _ ↦ r.resolution_state ];
}

-- A claim that does not
abbrev pub disputed_by : Claim → Resolution → Resolution
disputed_by c r = record r {
  conflicting_claim_ids = r.conflicting_claim_ids ++ c.id ∷ [];
  resolution_state = disputed;
}

-- The claim's disposition, and the resolution if it changed.
unfoldable pub note_claim : Claim → Disposition → String → Option Resolution → Bike → Bool × Bike
unfolding set_disposition save_resolution
note_claim c d reason change b = (
  is_some change,
  record b {
    claims = set_disposition c.id d reason b.claims;
    resolutions = elim change [ none ↦ b.resolutions | some r ↦ save_resolution r b.resolutions ];
  },
)

abbrev pub changed : Option Bike → Option (Bool × Bike)
changed none = none
changed (some b) = some (true, b)

-- An eligible claim, against the resolution of its field.
unfoldable pub judge :
    Resolver → Claim → FieldDefinition → FieldPolicy → ℕ → Resolution → Bike → Option (Bool × Bike)
unfolding effective_confidence can_supersede apply_claim note_claim
judge x c d p score r b =
    let confidence : Confidence = effective_confidence score p in
    if current_is_unknown r
    then if is_low confidence
      then some (note_claim c pending "below_auto_fill_threshold" none b)
      else changed (apply_claim x c "auto_fill_policy_satisfied" confidence r b)
    else if text_is r.current_claim_id c.id
    then some (note_claim c applied "current_resolution_claim" none b)
    else if json_eq c.value r.current_value
    then some (
        note_claim c supporting "matches_current_resolution"
          (if one_of r.supporting_claim_ids c.id then none else some (supported c confidence r)) b)
    else if can_supersede d p score c r
    then changed (apply_claim x c "newer_installed_evidence_superseded_current" confidence r b)
    else some (
        note_claim c conflict "current_resolution_retained_by_field_policy"
          (if one_of r.conflicting_claim_ids c.id then none else some (disputed_by c r)) b)

-- The body of the loop, for one claim.
unfoldable pub resolve_claim : Resolver → Claim → Bike → Option (Bool × Bike)
unfolding verdict judge note_claim
resolve_claim x c b = elim (verdict x c b) [
  | aside d reason ↦ some (note_claim c d reason none b)
  | eligible d p score r ↦ judge x c d p score r b
]

-- The loop: whether a claim changed the profile, and the profile.
unfoldable pub resolve_claims : Resolver → List Claim → Bike → Option (Bool × Bike)
unfolding resolve_claim
resolve_claims x [] b = some (false, b)
resolve_claims x (c ∷ cs) b = elim (resolve_claim x c b) [
  | none ↦ none
  | some (change, b') ↦ elim (resolve_claims x cs b') [
    | none ↦ none
    | some (more, b'') ↦ some (change || more, b'')
  ]
]

-- _resolution_order: the rank of a claim's path, and then the dotted path.
abbrev pub order_rank : Path_ → ℕ
order_rank path =
    if ends_in "mechanism" path
    then 1
    else if is_inner "rotor" path
    then 2
    else if ends_in "presence" path
    then 0
    else 3

abbrev pub dotted : Path_ → String
dotted [] = ""
dotted (p ∷ []) = p
dotted (p ∷ q ∷ ps) = append p (append "." (dotted (q ∷ ps)))

abbrev pub resolution_order : Claim → Claim → Bool
resolution_order c d =
    ltb (order_rank c.field_path) (order_rank d.field_path)
    || ((order_rank c.field_path == order_rank d.field_path)
        && text_lt (dotted c.field_path) (dotted d.field_path))

-- The loop of resolve over a batch of claims, in its order. The whole of resolve, with the derived facts
-- and the revision, is `resolve_profile` of Profile.Revision.
unfoldable pub resolve : Resolver → List Claim → Bike → Option (Bool × Bike)
unfolding resolve_claims order_by
resolve x cs b = resolve_claims x (order_by resolution_order cs) b
