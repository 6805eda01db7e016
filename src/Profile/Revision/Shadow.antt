-- ===== src/Profile/Revision/Shadow.antt =====
-- A whole resolution under the shadow policy.
use bike_doc.Prelude.{Bool, true, false, Option, none, some, List, ◌≡◌, refl, ◌||◌, ap, ◌∙◌}
use bike_doc.Profile.Claims.{Claim, Bike, Resolver, is_shadow}
use bike_doc.Profile.Derived.{Derivation}
use bike_doc.Profile.Recompute.{recompute_derived, then_also}
use bike_doc.Profile.Resolver.Unchanged.{IsSameProfile, resolve_shadow}
use bike_doc.Profile.Revision.{Profile, saved, resolve_profile}

or_false :
    (m : Option (Bool × Bike))
    → ◌≡◌ {A = Option (Bool × Bike)}
        (elim m [ none ↦ none | some (more, b) ↦ some (false || more, b) ])
        m
or_false none = refl
or_false (some (more, b)) = refl

-- Under the shadow policy a batch of claims never fails, and changes neither the projection nor any
-- resolution, but the derived facts are computed again all the same: the whole resolution does to a
-- profile what that computation does, whose change is reported, saved and counted by the revision.
pub resolve_profile_shadow :
    (x : Resolver) (y : Derivation) (cs : List Claim) (p : Profile)
    → is_shadow x.mode ≡ true
    → (b : Bike) × IsSameProfile p.bike b
      × (resolve_profile x y cs p ≡ saved x.now p (recompute_derived y b))
unfolding resolve_profile
resolve_profile_shadow x y cs p h =
    let (b, e, same) = resolve_shadow x cs p.bike h in
    (
      b,
      same,
      ap (λ m. saved x.now p (then_also m (recompute_derived y))) e
          ∙ ap (saved x.now p) (or_false (recompute_derived y b)),
    )
