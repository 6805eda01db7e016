-- ===== src/Tests/Stale.antt =====
-- A stroke is entered by hand, its shock is said to be absent and then present, and the stroke is entered
-- again: it stays away.
use bike_doc.Prelude.{
  All, Bool, true, false, Option, none, some, List, [], ◌∷◌, ◌≡◌, refl, sym, subst,
}
use bike_doc.Profile.Tree.{
  Json, null, text, number, dict, Fields, nil, cons, json_eq, technical_value,
}
use bike_doc.Profile.Projection.{with_technical_value}
use bike_doc.Profile.Claims.{Resolution, Bike, resolved, get_resolution}
use bike_doc.Profile.Derived.{Derivation, resolution_at}
use bike_doc.Profile.Manual.{NewClaim, apply_manual_claim, apply_each, new_manual_claim}
use bike_doc.Profile.Manual.Stale.{IsElsewhere, stale_edit_lost}
use bike_doc.Tests.Profile.{shock_presence, shock_stroke, registry}

abbrev derivation : Derivation
derivation = record { registry = registry; now = 300; claim_id = λ p. "derived_claim" }

abbrev empty : Bike
empty = record { technical_profile = dict nil; resolutions = []; claims = [] }

abbrev stroke_first : List NewClaim
stroke_first = new_manual_claim "claim_1" shock_stroke (number 55) (number 55) false ∷ []

abbrev shock_claims : List NewClaim
shock_claims =
    new_manual_claim "claim_2" shock_presence (text "absent") (text "absent") false
    ∷ new_manual_claim "claim_3" shock_presence (text "present") (text "present") false
    ∷ []

abbrev bike_of : Option (Bool × Bike) → Bike
bike_of none = empty
bike_of (some (w, b)) = b

abbrev with_stroke : Bike
with_stroke = bike_of (apply_each derivation stroke_first empty)

abbrev entered : Bike
entered = bike_of (apply_each derivation shock_claims with_stroke)

enters : apply_each derivation shock_claims with_stroke ≡ some (true, entered)
unfolding apply_each json_eq
enters = refl

elsewhere : All (IsElsewhere shock_stroke) shock_claims
elsewhere = ((λ h. cc h, refl), ((λ h. cc h, refl), tt))

abbrev stroke_again : NewClaim
stroke_again = new_manual_claim "claim_4" shock_stroke (number 55) (number 55) false

abbrev stroke_kept : Resolution
stroke_kept = resolution_at shock_stroke with_stroke

keeps_stroke : get_resolution shock_stroke with_stroke.resolutions ≡ some stroke_kept
unfolding get_resolution apply_each json_eq
keeps_stroke = refl

abbrev positions : Json
positions = dict (cons "front" (dict nil) (cons "rear" (dict nil) nil))

-- The projection with this rear shock
abbrev with_shock : Fields → Json
with_shock shock = dict (
    cons "schema_version" (text "bike_profile.v2") (
      cons "identity" (dict nil) (
        cons "frame" (dict nil) (
          cons "brakes" positions (
            cons "drivetrain" (dict nil) (
              cons "rolling_system" positions (
                cons "suspension" (dict (cons "rear_shock" (dict shock) nil)) (
                  cons "cockpit" (dict nil)
                    (cons "seating" (dict nil) (cons "electric_assist" (dict nil) nil))))))))))

abbrev present_only : Json
present_only = with_shock (cons "presence" (text "present") nil)

abbrev next : Json
next = with_shock (cons "presence" (text "present") (cons "stroke_mm" (number 55) nil))

reads_entered : entered.technical_profile ≡ present_only
unfolding apply_each json_eq
reads_entered = refl

fits_present : with_technical_value registry present_only shock_stroke (number 55) ≡ some next
unfolding with_technical_value
fits_present = refl

fits : with_technical_value registry entered.technical_profile shock_stroke (number 55) ≡ some next
fits =
    subst (λ y. with_technical_value registry y shock_stroke (number 55) ≡ some next)
      (sym reads_entered) fits_present

stroke_resolved :
    (stroke_kept.resolution_state ≡ resolved) × (stroke_kept.current_value ≡ number 55)
unfolding get_resolution apply_each json_eq
stroke_resolved = (refl, refl)

no_stroke : technical_value shock_stroke entered.technical_profile ≡ null
unfolding technical_value apply_each json_eq
no_stroke = refl

stale_edit_lost_example :
    (b' : Bike) × (apply_manual_claim derivation stroke_again entered ≡ some (false, b'))
    × (technical_value shock_stroke b'.technical_profile ≡ null)
stale_edit_lost_example =
    stale_edit_lost derivation stroke_again shock_claims with_stroke entered true stroke_kept next
      refl refl keeps_stroke stroke_resolved.0 stroke_resolved.1 elsewhere enters no_stroke fits
