-- ===== src/Tests/Derived.antt =====
-- A bike with a rear rim brake: a second brake gives the brake summary, a frame seen on an image is taken
-- into the profile, and a brake that is cleared by hand stays cleared.
use bike_doc.Prelude.{
  Bool, true, false, Option, none, some, List, [], ◌∷◌, ◌≡◌, refl, All, arith, if◌then◌else◌,
}
use bike_doc.Profile.Tree.{null, text, json_eq}
use bike_doc.Profile.Tree.Keeps.{is_scalar}
use bike_doc.Profile.Projection.{path_eq}
use bike_doc.Profile.Claims.{
  Claim, pending, Bike, FieldPolicy, Resolver, evaluated, shadow, get_resolution,
}
use bike_doc.Profile.Derived.{resolution_at}
use bike_doc.Profile.Recompute.{brake_fact, recompute_derived, brake_summary}
use bike_doc.Profile.Recompute.Agrees.{Agrees-plain}
use bike_doc.Profile.Recompute.Idempotent.{recompute_derived_settles}
use bike_doc.Profile.Resolver.{resolve}
use bike_doc.Profile.Resolver.Agrees.{Agrees}
use bike_doc.Profile.Resolver.Loop.{IsCanonical}
use bike_doc.Profile.Revision.{Profile, saved, resolve_profile}
use bike_doc.Profile.Revision.Shadow.{resolve_profile_shadow}
use bike_doc.Profile.Resolver.Unchanged.{IsSameProfile}
use bike_doc.Profile.Revision.Saves.{IsNext, resolve_profile-Agrees, resolve_profile-IsNext}
use bike_doc.Profile.Manual.{
  cleared_resolution, new_manual_claim, set_manual_technical_value, wrote, apply_manual_claims,
  NewClaim,
}
use bike_doc.Profile.Manual.Agrees.{IsPlainWrite, apply_manual_claims-Agrees}
use bike_doc.Profile.Manual.Barrier.{manual_clear_holds}
use bike_doc.Tests.Manual.{
  registry, derivation, definition, normalize, profile, written_by_hand, profile_of, material, flat,
  fields, table, profile-Agrees, rim_brake,
}

-- The front brake is set, and an image shows an aluminum frame.
abbrev seen : Claim
seen = record {
  id = "claim_3";
  field_path = material;
  value = text "aluminum";
  source_type = "image_inference";
  has_evidence_refs = true;
  scope_assumption = some "installed_on_target_bike";
  observed_at = 200;
  evidence_basis = some "direct_visual";
  visibility = some "clear";
  model_score = some 98;
  disposition = pending;
  disposition_reason = none;
}

abbrev calibrated : FieldPolicy
calibrated = record {
  auto_fill_threshold = 90;
  auto_overwrite_threshold = some 97;
  precision_gate_passed = true;
  accepted_baseline_version = some "v1";
  regression_evidence_passed = true;
  promoted = true;
}

abbrev resolver : Resolver
resolver = record {
  mode = evaluated;
  policies = λ path basis. some calibrated;
  registry = registry;
  definition = λ path. if path_eq material path then some written_by_hand else none;
  accepts = λ path value. is_scalar value;
  now = 210;
}

canonical : IsCanonical resolver
canonical = record { flat = flat; defined = λ p d e. ground arith; accepted = λ p value h. h }

abbrev saved_as : Option (Bool × Profile) → Profile
saved_as none = profile
saved_as (some (w, p)) = p

abbrev seen_profile : Profile
seen_profile = saved_as (resolve_profile resolver derivation (seen ∷ []) profile)

resolves_seen : resolve_profile resolver derivation (seen ∷ []) profile ≡ some (true, seen_profile)
unfolding resolve_profile json_eq brake_summary
resolves_seen = refl

resolve_profile-Agrees_example : Agrees registry seen_profile.bike
resolve_profile-Agrees_example =
    resolve_profile-Agrees resolver derivation (seen ∷ []) profile seen_profile true canonical
      fields refl profile-Agrees resolves_seen

resolve_profile-IsNext_example : IsNext 210 profile true seen_profile
resolve_profile-IsNext_example =
    resolve_profile-IsNext resolver derivation (seen ∷ []) profile seen_profile true canonical
      fields refl profile-Agrees resolves_seen

-- The same image under the shadow policy
abbrev shadow_resolver : Resolver
shadow_resolver = record resolver { mode = shadow }

resolve_profile_shadow_example :
    (b : Bike) × IsSameProfile profile.bike b
    × (resolve_profile shadow_resolver derivation (seen ∷ []) profile
        ≡ saved 210 profile (recompute_derived derivation b))
resolve_profile_shadow_example =
    resolve_profile_shadow shadow_resolver derivation (seen ∷ []) profile refl

abbrev brake_claims : List NewClaim
brake_claims =
    new_manual_claim "claim_4" (brake_fact "rear" "actuation") (text "mechanical")
      (text "mechanical") false
    ∷ new_manual_claim "claim_5" material (text "steel") (text "steel") true
    ∷ []

abbrev by_hand : Profile
by_hand = saved_as (apply_manual_claims derivation brake_claims profile)

applies_brakes : apply_manual_claims derivation brake_claims profile ≡ some (true, by_hand)
unfolding apply_manual_claims json_eq brake_summary
applies_brakes = refl

plain_brakes : All (IsPlainWrite registry) brake_claims
plain_brakes = (
  record {
    proper = λ h. cc h;
    canonical = refl;
    scalar = λ n. refl;
    component = refl;
    rotor = refl;
  },
  (
    record {
      proper = λ h. cc h;
      canonical = refl;
      scalar = λ n. refl;
      component = refl;
      rotor = refl;
    },
    tt,
  ),
)

apply_manual_claims-Agrees_example : Agrees registry by_hand.bike
apply_manual_claims-Agrees_example =
    apply_manual_claims-Agrees derivation flat brake_claims profile by_hand true fields plain_brakes
      applies_brakes profile-Agrees

abbrev cleared_profile : Profile
cleared_profile = profile_of (
    set_manual_technical_value derivation definition normalize "claim_6"
      (brake_fact "rear" "mechanism") null false profile)

clears_rear :
    set_manual_technical_value derivation definition normalize "claim_6"
      (brake_fact "rear" "mechanism")
      null
      false
      profile
    ≡ wrote cleared_profile
unfolding set_manual_technical_value json_eq brake_summary
clears_rear = refl

-- The rear brake, on the image on which the frame was seen
abbrev rear_seen : Claim
rear_seen = record seen {
  id = "claim_7";
  field_path = brake_fact "rear" "mechanism";
  value = text "rim_v_brake";
}

abbrev every_field : Resolver
every_field = record resolver { definition = λ path. some written_by_hand }

abbrev bike_of : Option (Bool × Bike) → Bike
bike_of none = profile.bike
bike_of (some (w, b)) = b

abbrev after_images : Bike
after_images = bike_of (resolve every_field (rear_seen ∷ seen ∷ []) cleared_profile.bike)

resolves_images :
    resolve every_field (rear_seen ∷ seen ∷ []) cleared_profile.bike ≡ some (true, after_images)
unfolding resolve set_manual_technical_value json_eq brake_summary
resolves_images = refl

manual_clear_holds_example :
    get_resolution (brake_fact "rear" "mechanism") after_images.resolutions
    ≡ some (
        cleared_resolution 300
          (new_manual_claim "claim_6" (brake_fact "rear" "mechanism") null null false)
          (resolution_at (brake_fact "rear" "mechanism") profile.bike))
unfolding get_resolution
manual_clear_holds_example =
    manual_clear_holds derivation definition normalize "claim_6" (brake_fact "rear" "mechanism")
      false profile cleared_profile every_field (rear_seen ∷ seen ∷ []) after_images true table
      (Agrees-plain registry profile.bike profile-Agrees) refl clears_rear (refl, (refl, tt))
      resolves_images

-- Two rim brakes, before the summary is computed
abbrev two_brakes : Bike
two_brakes = record profile.bike {
  resolutions = rim_brake ∷ record rim_brake { field_path = brake_fact "front" "mechanism" } ∷ [];
}

abbrev with_summary : Bike
with_summary = bike_of (recompute_derived derivation two_brakes)

summarises : recompute_derived derivation two_brakes ≡ some (true, with_summary)
unfolding recompute_derived json_eq brake_summary
summarises = refl

recompute_derived_settles_example :
    recompute_derived derivation with_summary ≡ some (false, with_summary)
unfolding get_resolution
recompute_derived_settles_example =
    recompute_derived_settles derivation two_brakes with_summary true (tt, tt) summarises
