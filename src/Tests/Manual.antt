-- ===== src/Tests/Manual.antt =====
-- A bike with a rear rim brake gets its front brake by hand, and the brake summary follows.
use bike_doc.Prelude.{
  Bool, true, false, Option, none, some, List, [], ◌∷◌, ◌≡◌, ◌∙◌, refl, arith, inl, inr, sym, ap,
  Bool-cases, if◌then◌else◌, subst, ◌||◌,
}
use bike_doc.Profile.Tree.{Json, text, dict, nil, cons, Path_, json_eq, technical_value}
use bike_doc.Profile.Tree.Keeps.{is_scalar}
use bike_doc.Profile.Projection.{path_eq, empty_technical_projection}
use bike_doc.Profile.Claims.{Resolution, resolved, high, FieldDefinition, get_resolution, one_of}
use bike_doc.Profile.Claims.Found.{path_eq_sound}
use bike_doc.Profile.Gates.{is_path}
use bike_doc.Profile.Derived.{Derivation}
use bike_doc.Profile.Recompute.{
  legacy_summary, brake_fact, drivetrain, front_chainring_count, rear_speed_count, brake_summary,
}
use bike_doc.Profile.Recompute.Agrees.{HasDerived}
use bike_doc.Profile.Recompute.Elsewhere.{IsOriginal}
use bike_doc.Profile.Resolver.Agrees.{IsFlat, Agreement, Agrees}
use bike_doc.Profile.Resolver.Flat.{is_flat-IsFlat}
use bike_doc.Profile.Revision.{Profile}
use bike_doc.Profile.Manual.{set_manual_technical_value, ManualResult, wrote, failed}
use bike_doc.Profile.Manual.Reads.{IsManualTable}
use bike_doc.Profile.Manual.Accepted.{manual_edit_reads}

abbrev pub material : Path_
material = "frame" ∷ "material" ∷ []

abbrev chainrings : Path_
chainrings = drivetrain "crankset" "chainring_count"

abbrev derived_paths : List Path_
derived_paths = legacy_summary ∷ front_chainring_count ∷ rear_speed_count ∷ []

abbrev pub registry : List Path_
registry =
    legacy_summary
    ∷ front_chainring_count
    ∷ rear_speed_count
    ∷ material
    ∷ chainrings
    ∷ brake_fact "front" "mechanism"
    ∷ brake_fact "front" "actuation"
    ∷ brake_fact "rear" "mechanism"
    ∷ brake_fact "rear" "actuation"
    ∷ []

abbrev pub derivation : Derivation
derivation = record { registry = registry; now = 300; claim_id = λ p. "derived_claim" }

abbrev pub written_by_hand : FieldDefinition
written_by_hand = record {
  volatility_class = "stable";
  permitted_evidence_bases = "direct_visual" ∷ [];
  image_auto_supersedes = "image_inference" ∷ [];
  requires_readable_marking = false;
  requires_direct_evidence = true;
  requires_counted_evidence = false;
}

abbrev computed : FieldDefinition
computed = record written_by_hand { volatility_class = "derived" }

abbrev pub definition : Path_ → Option FieldDefinition
definition p =
    if is_path derived_paths p
    then some computed
    else if is_path registry p
    then some written_by_hand
    else none

abbrev pub normalize : Path_ → Json → Option Json
normalize p value = if is_scalar value then some value else none

normal_scalar :
    (value v : Json) → (if is_scalar value then some value else none) ≡ some v → is_scalar v ≡ true
normal_scalar value v e = elim (Bool-cases (is_scalar value)) [
  | inl h ↦
      ap is_scalar (
        ap (λ (o : Option Json). elim o [ none ↦ v | some y ↦ y ])
          (sym (subst (λ b. (if b then some value else none) ≡ some v) h e)))
      ∙ h
  | inr h ↦ cc (subst (λ b. (if b then some value else none) ≡ some v) h e)
]

pub flat : IsFlat registry
unfolding technical_value empty_technical_projection
flat = is_flat-IsFlat registry refl

pub fields : HasDerived registry
fields = record { brake = refl; front = refl; rear = refl }

field_if : Bool → Bool → Option FieldDefinition
field_if a r = if a then some computed else if r then some written_by_hand else none

listed :
    (a r : Bool) (d : FieldDefinition) → (a ≡ true → r ≡ true) → field_if a r ≡ some d → r ≡ true
unfolding field_if
listed true r d h e = h refl
listed false true d h e = refl
listed false false d h e = cc e

unlocked :
    (a r : Bool) (d : FieldDefinition)
    → field_if a r ≡ some d
    → one_of ("derived" ∷ "user_managed" ∷ []) d.volatility_class ≡ false
    → a ≡ false
unfolding field_if
unlocked true r d e l =
    let same : computed ≡ d =
      ap (λ (o : Option FieldDefinition). elim o [ none ↦ d | some y ↦ y ]) e in
    subst
      (λ (y : FieldDefinition). one_of ("derived" ∷ "user_managed" ∷ []) y.volatility_class ≡ false)
      (sym same) l
unlocked false r d e l = refl

first_three : (u v w r : Bool) → (u || (v || (w || false))) ≡ true → (u || (v || (w || r))) ≡ true
first_three u v w r h = ground arith

derived_listed : (p : Path_) → is_path derived_paths p ≡ true → is_path registry p ≡ true
derived_listed p h =
    first_three (path_eq legacy_summary p) (path_eq front_chainring_count p)
      (path_eq rear_speed_count p) _ h

none_of_three :
    (u v w : Bool) → (u || (v || (w || false))) ≡ false → (u ≡ false) × (v ≡ false) × (w ≡ false)
none_of_three u v w h = ground arith

not_derived : (p : Path_) → is_path derived_paths p ≡ false → IsOriginal p
not_derived p h =
    let (a, b, c) =
      none_of_three (path_eq legacy_summary p) (path_eq front_chainring_count p)
        (path_eq rear_speed_count p) h in
    record { brake = a; front = b; rear = c }

definition_if : (p : Path_) → definition p ≡ field_if (is_path derived_paths p) (is_path registry p)
unfolding field_if
definition_if p = refl

pub table : IsManualTable registry definition normalize
table = record {
  flat = flat;
  fields = fields;
  defined = λ p d e.
      listed (is_path derived_paths p) (is_path registry p) d (derived_listed p)
        (sym (definition_if p) ∙ e);
  original = λ p d e l.
      not_derived p
        (unlocked (is_path derived_paths p) (is_path registry p) d (sym (definition_if p) ∙ e) l);
  normal = λ p value v e. normal_scalar value v e;
}

abbrev pub rim_brake : Resolution
rim_brake = record {
  field_path = brake_fact "rear" "mechanism";
  current_value = text "rim_v_brake";
  resolution_state = resolved;
  current_claim_id = some "claim_1";
  supporting_claim_ids = [];
  conflicting_claim_ids = [];
  effective_confidence = high;
  source_type = some "image_inference";
  observed_at = some 100;
  resolved_at = some 110;
  manual_clear_barrier_at = none;
}

abbrev pub profile : Profile
profile = record {
  bike = record {
    technical_profile = dict (
        cons "schema_version" (text "bike_profile.v2") (
          cons "brakes" (dict (cons "rear" (dict (cons "mechanism" (text "rim_v_brake") nil)) nil))
            nil));
    resolutions = rim_brake ∷ [];
    claims = [];
  };
  profile_revision = 4;
  updated_at = 110;
}

rim_agrees : Agreement registry profile.bike (brake_fact "rear" "mechanism") rim_brake
unfolding technical_value
rim_agrees = record { known = refl; scalar = λ n. refl; agree = λ n. refl }

pub profile-Agrees : Agrees registry profile.bike
unfolding get_resolution
profile-Agrees q s f = elim (Bool-cases (path_eq (brake_fact "rear" "mechanism") q)) [
  | inl h ↦
      subst (λ y. Agreement registry profile.bike y s)
        (path_eq_sound (brake_fact "rear" "mechanism") q h)
        (subst (Agreement registry profile.bike (brake_fact "rear" "mechanism")) (ground arith)
          rim_agrees)
  | inr h ↦ absurd (ground arith)
]

abbrev pub profile_of : ManualResult → Profile
profile_of (wrote p) = p
profile_of (failed e) = profile

abbrev front_set : Profile
front_set = profile_of (
    set_manual_technical_value derivation definition normalize "claim_2"
      (brake_fact "front" "mechanism") (text "rim_caliper") false profile)

sets_front :
    set_manual_technical_value derivation definition normalize "claim_2"
      (brake_fact "front" "mechanism")
      (text "rim_caliper")
      false
      profile
    ≡ wrote front_set
unfolding set_manual_technical_value json_eq brake_summary
sets_front = refl

-- The summary follows, and the revision counts one change.
summary_follows :
    (technical_value legacy_summary front_set.bike.technical_profile ≡ text "rim")
    × (front_set.profile_revision ≡ 5)
unfolding set_manual_technical_value json_eq technical_value brake_summary
summary_follows = (refl, refl)

manual_edit_reads_example :
    normalize (brake_fact "front" "mechanism") (text "rim_caliper")
    ≡ some (technical_value (brake_fact "front" "mechanism") front_set.bike.technical_profile)
manual_edit_reads_example =
    manual_edit_reads derivation definition normalize "claim_2" (brake_fact "front" "mechanism")
      (text "rim_caliper") false profile front_set table profile-Agrees refl sets_front
