-- ===== src/Profile/Recompute/Steps.antt =====
-- The computation of the derived facts, step by step.
use bike_doc.Prelude.{
  Bool, true, ◌||◌, ◌&&◌, not, arith, Option, none, some, List, [], ◌∷◌, ◌≡◌, ◌∙◌, refl, ap, sym,
  subst,
}
use bike_doc.Profile.Tree.{Path_}
use bike_doc.Profile.Projection.{path_eq}
use bike_doc.Profile.Claims.{Bike}
use bike_doc.Profile.Derived.{Derivation, sources_of}
use bike_doc.Profile.Derived.Again.{SameElsewhere}
use bike_doc.Profile.Recompute.Again.{SameAt, sources_same, brake_elsewhere}
use bike_doc.Profile.Recompute.Counts.{ArePlain, ArePlainSources, count_elsewhere}
use bike_doc.Profile.Recompute.{
  then_also, recompute_brake_summary, recompute_count, recompute_drivetrain_counts,
  recompute_derived, front_chainring_count, rear_speed_count, drivetrain, legacy_summary,
}

or_found :
    (u : Bool) (m : Option (Bool × Bike)) (w : Bool) (b' : Bike)
    → ◌≡◌ {A = Option (Bool × Bike)}
        (elim m [ none ↦ none | some (more, b) ↦ some (u || more, b) ])
        (some (w, b'))
    → (v : Bool) × (m ≡ some (v, b')) × (w ≡ (u || v))
or_found u none w b' e = cc
or_found u (some (v, b₂)) w b' e = (
  v,
  ap (λ (y : Option (Bool × Bike)). elim y [ none ↦ some (v, b₂) | some z ↦ some (v, z.1) ]) e,
  ap (λ (y : Option (Bool × Bike)). elim y [ none ↦ w | some z ↦ z.0 ]) (sym e),
)

-- One operation after another, taken apart
pub then_also-some :
    (m : Option (Bool × Bike)) (f : Bike → Option (Bool × Bike)) (w : Bool) (b' : Bike)
    → then_also m f ≡ some (w, b')
    → (u : Bool) × (b₁ : Bike) × (v : Bool) × (m ≡ some (u, b₁))
      × (f b₁ ≡ some (v, b'))
      × (w ≡ (u || v))
then_also-some none f w b' e = cc
then_also-some (some (u, b₁)) f w b' e =
    let (v, found, change) = or_found u (f b₁) w b' e in (u, b₁, v, refl, found, change)

abbrev pub is_apart : Path_ → List Path_ → Bool
is_apart p [] = true
is_apart p (q ∷ qs) = not (path_eq p q) && is_apart p qs

pub elsewhere_at :
    (p : Path_) (qs : List Path_) (b b' : Bike)
    → SameElsewhere p b b'
    → is_apart p qs ≡ true
    → SameAt qs b b'
elsewhere_at p [] b b' s h = tt
elsewhere_at p (q ∷ qs) b b' s h =
    (s q (ground (arith, h)), elsewhere_at p qs b b' s (ground (arith, h)))

-- The sources stay plain where their resolutions do not change.
pub plain_same :
    (ps : List Path_) (b b' : Bike)
    → SameAt ps b b'
    → ArePlain (sources_of ps b.resolutions)
    → ArePlain (sources_of ps b'.resolutions)
plain_same ps b b' s p = subst (λ y. ArePlain y) (sym (sources_same ps b b' s)) p

abbrev pub crankset_sources : List Path_
crankset_sources = drivetrain "crankset" "chainring_count" ∷ []

abbrev pub speed_sources : List Path_
speed_sources =
    drivetrain "rear_cluster" "speed_count"
    ∷ drivetrain "rear_shifter" "speed_count"
    ∷ drivetrain "gear_unit" "speed_count"
    ∷ []

-- The three computations of one call, and what each leaves alone
pub record Steps (x : Derivation) (b : Bike) (w : Bool) (b' : Bike) : Type 0 where
  pub b₁ : Bike
  pub b₂ : Bike
  pub u : Bool
  pub v : Bool
  pub z : Bool
  pub brake : recompute_brake_summary x b ≡ some (u, b₁)
  pub front : recompute_count x front_chainring_count crankset_sources b₁ ≡ some (v, b₂)
  pub rear : recompute_count x rear_speed_count speed_sources b₂ ≡ some (z, b')
  pub change : w ≡ (u || (v || z))
  pub plain_front : ArePlainSources x front_chainring_count crankset_sources b₁
  pub plain_rear : ArePlainSources x rear_speed_count speed_sources b₂
  pub after_brake : SameElsewhere legacy_summary b b₁
  pub after_front : SameElsewhere front_chainring_count b₁ b₂
  pub after_rear : SameElsewhere rear_speed_count b₂ b'

module _ (x : Derivation) where
  -- The sources of both counts are no objects.
  abbrev pub HasPlainCounts : Bike → Type 0
  HasPlainCounts b =
      ArePlainSources x front_chainring_count crankset_sources b
      × ArePlainSources x rear_speed_count speed_sources b

  pub derived-Steps :
      (b b' : Bike) (w : Bool)
      → HasPlainCounts b
      → recompute_derived x b ≡ some (w, b')
      → Steps x b w b'
  unfolding recompute_derived recompute_drivetrain_counts
  derived-Steps b b' w plain e =
      let (u, b₁, t, e₁, r₁, w₁) =
        then_also-some (recompute_brake_summary x b) (recompute_drivetrain_counts x) w b' e in
      let (v, b₂, z, e₂, e₃, w₂) =
        then_also-some (recompute_count x front_chainring_count crankset_sources b₁)
          (recompute_count x rear_speed_count speed_sources) t b' r₁ in
      let s₁ = brake_elsewhere x b u b₁ e₁ in
      let front₁ =
        plain_same crankset_sources b b₁ (elsewhere_at legacy_summary crankset_sources b b₁ s₁ refl)
          plain.0 in
      let s₂ = count_elsewhere x front_chainring_count crankset_sources b₁ v b₂ front₁ e₂ in
      let rear₁ =
        plain_same speed_sources b b₁ (elsewhere_at legacy_summary speed_sources b b₁ s₁ refl)
          plain.1 in
      let rear₂ =
        plain_same speed_sources b₁ b₂
          (elsewhere_at front_chainring_count speed_sources b₁ b₂ s₂ refl) rear₁ in
      record {
        b₁ = b₁;
        b₂ = b₂;
        u = u;
        v = v;
        z = z;
        brake = e₁;
        front = e₂;
        rear = e₃;
        change = w₁ ∙ ap (λ y. u || y) w₂;
        plain_front = front₁;
        plain_rear = rear₂;
        after_brake = s₁;
        after_front = s₂;
        after_rear = count_elsewhere x rear_speed_count speed_sources b₂ z b' rear₂ e₃;
      }
