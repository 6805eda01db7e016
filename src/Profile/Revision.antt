-- ===== src/Profile/Revision.antt =====
-- The whole of ProfileInferenceResolver.resolve (services/profile_inference_resolution.py): the loop
-- over the claims, the derived facts, and the revision of a profile that changed.
pub mod Saves
pub mod Shadow
use bike_doc.Prelude.{ℕ, ◌+◌, Bool, true, false, Option, none, some, List, if◌then◌else◌, ◌||◌}
use bike_doc.Profile.Claims.{Claim, Bike, Resolver}
use bike_doc.Profile.Derived.{Derivation}
use bike_doc.Profile.Recompute.{then_also, recompute_derived}
use bike_doc.Profile.Resolver.{resolve}

-- The stored profile with its revision
pub record Profile : Type 0 where
  pub bike : Bike
  pub profile_revision : ℕ
  pub updated_at : ℕ

-- What a write makes of a profile: a changed one gets the next revision.
abbrev pub put : ℕ → Profile → Bool → Bike → Profile
put now p true b = record { bike = b; profile_revision = p.profile_revision + 1; updated_at = now }
put now p false b = record p { bike = b }

abbrev pub saved : ℕ → Profile → Option (Bool × Bike) → Option (Bool × Profile)
saved now p none = none
saved now p (some (change, b)) = some (change, put now p change b)

-- resolve, as a write of the profile
unfoldable pub resolve_profile :
    Resolver → Derivation → List Claim → Profile → Option (Bool × Profile)
unfolding resolve recompute_derived
resolve_profile x y cs p = saved x.now p (then_also (resolve x cs p.bike) (recompute_derived y))
