-- ===== src/Tests/Resolver.antt =====
-- A newer image of a frame replaces the material that an older image gave, and a shadow policy does
-- not.
use bike_doc.Prelude.{
  arith, List, if◌then◌else◌, subst, Bool-cases, inl, inr, ◌&&◌, not, Bool, true, false, ◌≡◌,
  Option, none, some, [], ◌∷◌, refl,
}
use bike_doc.Profile.Tree.{text, dict, nil, cons, Path_, json_eq, technical_value}
use bike_doc.Profile.Tree.Paths.{diverges}
use bike_doc.Profile.Tree.Keeps.{is_scalar}
use bike_doc.Profile.Projection.{path_eq, clears_rotor, rotor_of, empty_technical_projection}
use bike_doc.Profile.Projection.Keeps.{is_unset}
use bike_doc.Profile.Claims.Found.{path_eq_refl, path_eq_sound}
use bike_doc.Profile.Gates.{is_path}
use bike_doc.Profile.Resolver.Agrees.{IsFlat, Agreement, Agrees}
use bike_doc.Profile.Resolver.Loop.{IsCanonical}
use bike_doc.Profile.Claims.{
  Claim, pending, applied, Resolution, resolved, high, Bike, FieldDefinition, FieldPolicy, Resolver,
  evaluated, get_resolution,
}
use bike_doc.Profile.Resolver.{resolve_claim, resolve}
use bike_doc.Profile.Resolver.Guarded.{Guarded, resolve_claim-Guarded}

abbrev material : Path_
material = "frame" ∷ "material" ∷ []

abbrev older : Claim
older = record {
  id = "claim_1";
  field_path = material;
  value = text "steel";
  source_type = "image_inference";
  has_evidence_refs = true;
  scope_assumption = some "installed_on_target_bike";
  observed_at = 100;
  evidence_basis = some "direct_visual";
  visibility = some "clear";
  model_score = some 96;
  disposition = applied;
  disposition_reason = none;
}

abbrev newer : Claim
newer = record older {
  id = "claim_2";
  value = text "aluminum";
  observed_at = 200;
  model_score = some 98;
  disposition = pending;
}

abbrev steel : Resolution
steel = record {
  field_path = material;
  current_value = text "steel";
  resolution_state = resolved;
  current_claim_id = some "claim_1";
  supporting_claim_ids = [];
  conflicting_claim_ids = [];
  effective_confidence = high;
  source_type = some "image_inference";
  observed_at = some 100;
  resolved_at = some 110;
  manual_clear_barrier_at = none;
}

abbrev bike : Bike
bike = record {
  technical_profile = dict (
      cons "schema_version" (text "bike_profile.v2")
        (cons "frame" (dict (cons "material" (text "steel") nil)) nil));
  resolutions = steel ∷ [];
  claims = older ∷ newer ∷ [];
}

abbrev descriptive : FieldDefinition
descriptive = record {
  volatility_class = "stable";
  permitted_evidence_bases = "direct_visual" ∷ [];
  image_auto_supersedes = "image_inference" ∷ [];
  requires_readable_marking = false;
  requires_direct_evidence = true;
  requires_counted_evidence = false;
}

abbrev calibrated : FieldPolicy
calibrated = record {
  auto_fill_threshold = 90;
  auto_overwrite_threshold = some 97;
  precision_gate_passed = true;
  accepted_baseline_version = some "v1";
  regression_evidence_passed = true;
  promoted = true;
}

abbrev resolver : Resolver
resolver = record {
  mode = evaluated;
  policies = λ path basis. some calibrated;
  registry = material ∷ [];
  definition = λ path. if path_eq material path then some descriptive else none;
  accepts = λ path value. is_scalar value;
  now = 210;
}

abbrev outcome_of : Option (Bool × Bike) → Bike
outcome_of none = bike
outcome_of (some (w, b)) = b

abbrev replaced : Bike
replaced = outcome_of (resolve_claim resolver newer bike)

replaces : resolve_claim resolver newer bike ≡ some (true, replaced)
unfolding resolve_claim json_eq
replaces = refl

finds_steel : get_resolution material bike.resolutions ≡ some steel
unfolding get_resolution
finds_steel = refl

resolve_claim-Guarded_example :
    (s : Resolution) × (get_resolution material replaced.resolutions ≡ some s)
    × Guarded resolver newer bike replaced material steel s
resolve_claim-Guarded_example =
    resolve_claim-Guarded resolver newer bike replaced true material steel finds_steel refl replaces

only_material : (p : Path_) → is_path resolver.registry p ≡ true → material ≡ p
only_material p h = path_eq_sound material p (ground arith)

flat : IsFlat resolver.registry
unfolding technical_value empty_technical_projection
flat = record {
  apart = λ p q hp hq h. cc (path_eq_refl material, only_material p hp, only_material q hq, h);
  leaf = λ q h. subst (λ y. is_unset y empty_technical_projection ≡ true) (only_material q h) refl;
  rotor = λ p value h.
      subst (λ y. (clears_rotor y value && not (diverges (rotor_of y) y)) ≡ false)
        (only_material p h) refl;
}

table : IsCanonical resolver
table = record { flat = flat; defined = λ p d e. ground arith; accepted = λ p value h. h }

steel_agrees : Agreement resolver.registry bike material steel
unfolding technical_value
steel_agrees = record { known = refl; scalar = λ n. refl; agree = λ n. refl }

bike-Agrees : Agrees resolver.registry bike
unfolding get_resolution
bike-Agrees q s f = elim (Bool-cases (path_eq material q)) [
  | inl h ↦
      subst (λ y. Agreement resolver.registry bike y s) (path_eq_sound material q h)
        (subst (Agreement resolver.registry bike material) (ground arith) steel_agrees)
  | inr h ↦ absurd (ground arith)
]

abbrev batch : List Claim
batch = newer ∷ older ∷ []

resolves_batch : resolve resolver batch bike ≡ some (true, outcome_of (resolve resolver batch bike))
unfolding resolve json_eq
resolves_batch = refl
