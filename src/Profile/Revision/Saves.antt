-- ===== src/Profile/Revision/Saves.antt =====
-- What a write of the profile saves: the revision counts the changes.
use bike_doc.Prelude.{
  ℕ, ◌+◌, Bool, true, false, Option, none, some, List, ◌≡◌, ◌∙◌, refl, sym, ap, subst, ◌||◌,
}
use bike_doc.Profile.Claims.{Claim, Bike, Resolver}
use bike_doc.Profile.Derived.{Derivation}
use bike_doc.Profile.Recompute.{recompute_derived}
use bike_doc.Profile.Recompute.Agrees.{HasDerived, recompute_derived-Agrees, Agrees-plain_counts}
use bike_doc.Profile.Recompute.Steps.{then_also-some}
use bike_doc.Profile.Recompute.Unchanged.{recompute_derived_unchanged, neither}
use bike_doc.Profile.Resolver.{resolve}
use bike_doc.Profile.Resolver.Agrees.{IsFlat, Agrees}
use bike_doc.Profile.Resolver.Loop.{IsCanonical, resolve-Agrees}
use bike_doc.Profile.Resolver.Unchanged.{IsSameProfile, resolve_unchanged}
use bike_doc.Profile.Revision.{Profile, put, saved, resolve_profile}

pub saved-some :
    (now : ℕ) (p : Profile) (m : Option (Bool × Bike)) (w : Bool) (p' : Profile)
    → saved now p m ≡ some (w, p')
    → (b : Bike) × (m ≡ some (w, b)) × (p' ≡ put now p w b)
saved-some now p none w p' e = cc
saved-some now p (some (c, b)) w p' e =
    let change : w ≡ c =
      ap (λ (y : Option (Bool × Profile)). elim y [ none ↦ w | some z ↦ z.0 ]) (sym e) in
    (
      b,
      ap (λ y. some (y, b)) (sym change),
      ap (λ (y : Option (Bool × Profile)). elim y [ none ↦ p' | some z ↦ z.1 ]) (sym e)
          ∙ ap (λ y. put now p y b) (sym change),
    )

-- The revision and the time of a profile that changed, or that did not
abbrev pub IsNext : ℕ → Profile → Bool → Profile → Type 0
IsNext now p true p' = (p'.profile_revision ≡ p.profile_revision + 1) × (p'.updated_at ≡ now)
IsNext now p false p' =
    (p'.profile_revision ≡ p.profile_revision)
    × (p'.updated_at ≡ p.updated_at)
    × IsSameProfile p.bike p'.bike

pub put-IsNext :
    (now : ℕ) (p p' : Profile) (w : Bool) (b : Bike)
    → p' ≡ put now p w b
    → (w ≡ false → IsSameProfile p.bike b)
    → IsNext now p w p'
put-IsNext now p p' true b e same =
    (ap (λ (y : Profile). y.profile_revision) e, ap (λ (y : Profile). y.updated_at) e)
put-IsNext now p p' false b e same = (
  ap (λ (y : Profile). y.profile_revision) e,
  ap (λ (y : Profile). y.updated_at) e,
  subst (λ (y : Bike). IsSameProfile p.bike y) (sym (ap (λ (y : Profile). y.bike) e)) (same refl),
)

pub put_bike : (now : ℕ) (p p' : Profile) (w : Bool) (b : Bike) → p' ≡ put now p w b → p'.bike ≡ b
put_bike now p p' true b e = ap (λ (y : Profile). y.bike) e
put_bike now p p' false b e = ap (λ (y : Profile). y.bike) e

module _ (x : Resolver) (y : Derivation) (cs : List Claim) (p p' : Profile) (w : Bool)
    (table : IsCanonical x) (fields : HasDerived x.registry) (one_table : y.registry ≡ x.registry)
    (before : Agrees x.registry p.bike) where
  resolved_bike : (u : Bool) (b : Bike) → resolve x cs p.bike ≡ some (u, b) → Agrees y.registry b
  resolved_bike u b e =
      subst (λ r. Agrees r b) (sym one_table) (resolve-Agrees x cs p.bike b u table before e)

  -- A whole resolution keeps the resolutions and the projection in agreement, the derived facts
  -- included: if every resolution with a value is of a canonical field and has the text, number or flag
  -- that the projection reads there, then the same holds of the profile that is saved, whichever claims
  -- are applied, whatever they retire, and whichever derived facts follow. The canonical paths are
  -- leaves that part from each other, the derived fields are among them, and the table accepts only
  -- texts, numbers and flags.
  pub resolve_profile-Agrees : resolve_profile x y cs p ≡ some (w, p') → Agrees x.registry p'.bike
  unfolding resolve_profile
  resolve_profile-Agrees e =
      let (b', m, done) = saved-some x.now p _ w p' e in
      let (u, b₁, v, e₁, e₂, _) =
        then_also-some (resolve x cs p.bike) (recompute_derived y) w b' m in
      subst (λ z. Agrees x.registry z) (sym (put_bike x.now p p' w b' done))
        (subst (λ r. Agrees r b') one_table
          (recompute_derived-Agrees y (subst (λ r. IsFlat r) (sym one_table) table.flat)
            (subst (λ r. HasDerived r) (sym one_table) fields) b₁ b' v e₂ (resolved_bike u b₁ e₁)))

  same_bike :
      (u v : Bool) (b₁ b' : Bike)
      → resolve x cs p.bike ≡ some (u, b₁)
      → recompute_derived y b₁ ≡ some (v, b')
      → false ≡ (u || v)
      → IsSameProfile p.bike b'
  same_bike u v b₁ b' e₁ e₂ h =
      let off = neither u v h in
      let same : b' ≡ b₁ =
        recompute_derived_unchanged y b₁ b' v (Agrees-plain_counts y b₁ (resolved_bike u b₁ e₁)) e₂
          off.1 in
      subst (λ z. IsSameProfile p.bike z) (sym same)
        (resolve_unchanged x cs p.bike b₁
          (subst (λ z. resolve x cs p.bike ≡ some (z, b₁)) off.0 e₁))

  -- The revision counts the changes: a resolution that reports a change saves the profile with the next
  -- revision and the time of the resolution, and one that reports none leaves projection, resolutions,
  -- revision and time as they were. The resolutions agreed with the projection before, the canonical
  -- paths are leaves that part from each other, the derived fields are among them, and the table
  -- accepts only texts, numbers and flags.
  pub resolve_profile-IsNext : resolve_profile x y cs p ≡ some (w, p') → IsNext x.now p w p'
  unfolding resolve_profile
  resolve_profile-IsNext e =
      let (b', m, done) = saved-some x.now p _ w p' e in
      let (u, b₁, v, e₁, e₂, change) =
        then_also-some (resolve x cs p.bike) (recompute_derived y) w b' m in
      put-IsNext x.now p p' w b' done (λ h. same_bike u v b₁ b' e₁ e₂ (sym h ∙ change))
