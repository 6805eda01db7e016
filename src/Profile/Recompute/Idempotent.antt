-- ===== src/Profile/Recompute/Idempotent.antt =====
-- The derived facts of a profile, computed again.
use bike_doc.Prelude.{Bool, true, false, Option, some, ◌∷◌, ◌≡◌, ◌∙◌, refl}
use bike_doc.Profile.Tree.{Path_}
use bike_doc.Profile.Claims.{Bike}
use bike_doc.Profile.Derived.{Derivation}
use bike_doc.Profile.Derived.Again.{SameElsewhere}
use bike_doc.Profile.Recompute.Again.{brake_rests, brake_rested, brake_rests_same, brake_again}
use bike_doc.Profile.Recompute.Counts.{count_rests, count_rested, count_rests_same, count_again}
use bike_doc.Profile.Recompute.Steps.{
  Steps, derived-Steps, HasPlainCounts, is_apart, elsewhere_at, crankset_sources, speed_sources,
}
use bike_doc.Profile.Recompute.{
  then_also, recompute_drivetrain_counts, recompute_derived, front_chainring_count,
  rear_speed_count, legacy_summary, brake_facts,
}

then_same :
    (m : Option (Bool × Bike)) (f : Bike → Option (Bool × Bike)) (b : Bike)
    → m ≡ some (false, b)
    → f b ≡ some (false, b)
    → then_also m f ≡ some (false, b)
then_same m f b e h = rw e (rw (h, then_also) refl)

module _ (x : Derivation) where
  -- Every derived fact rests.
  abbrev AllRest : Bike → Type 0
  AllRest b =
      (brake_rests x b ≡ true)
      × (count_rests x front_chainring_count crankset_sources b ≡ true)
      × (count_rests x rear_speed_count speed_sources b ≡ true)

  counts_rested :
      (b : Bike)
      → count_rests x front_chainring_count crankset_sources b ≡ true
      → count_rests x rear_speed_count speed_sources b ≡ true
      → recompute_drivetrain_counts x b ≡ some (false, b)
  unfolding recompute_drivetrain_counts
  counts_rested b h k =
      then_same _ _ b (count_rested x front_chainring_count crankset_sources b h)
        (count_rested x rear_speed_count speed_sources b k)

  rested : (b : Bike) → AllRest b → recompute_derived x b ≡ some (false, b)
  unfolding recompute_derived
  rested b r = then_same _ _ b (brake_rested x b r.0) (counts_rested b r.1 r.2)

  brake_kept :
      (p : Path_) (b b' : Bike)
      → SameElsewhere p b b'
      → is_apart p (legacy_summary ∷ brake_facts) ≡ true
      → brake_rests x b ≡ true
      → brake_rests x b' ≡ true
  brake_kept p b b' s h r =
      brake_rests_same x b b' (elsewhere_at p (legacy_summary ∷ brake_facts) b b' s h) ∙ r

  -- After the three computations every derived fact rests.
  Steps-rest : (b b' : Bike) (w : Bool) → Steps x b w b' → AllRest b'
  Steps-rest b b' w s = (
    brake_kept rear_speed_count s.b₂ b' s.after_rear refl (
        brake_kept front_chainring_count s.b₁ s.b₂ s.after_front refl
          (brake_again x b s.u s.b₁ s.brake)),
    count_rests_same x front_chainring_count crankset_sources s.b₂ b' (
          elsewhere_at rear_speed_count (front_chainring_count ∷ crankset_sources) s.b₂ b'
            s.after_rear refl)
        ∙ count_again x front_chainring_count crankset_sources s.b₁ s.v s.b₂ s.plain_front
            (λ y. elsewhere_at front_chainring_count crankset_sources s.b₁ s.b₂ y refl) s.front,
    count_again x rear_speed_count speed_sources s.b₂ s.z b' s.plain_rear
        (λ y. elsewhere_at rear_speed_count speed_sources s.b₂ b' y refl) s.rear,
  )

  -- Once the derived facts of a profile are computed, computing them again reports no change and
  -- leaves the whole profile as it is: projection, resolutions and claims. The values from which the
  -- counts are computed are not objects.
  pub recompute_derived_settles :
      (b b' : Bike) (w : Bool)
      → HasPlainCounts x b
      → recompute_derived x b ≡ some (w, b')
      → recompute_derived x b' ≡ some (false, b')
  recompute_derived_settles b b' w plain e =
      rested b' (Steps-rest b b' w (derived-Steps x b b' w plain e))
