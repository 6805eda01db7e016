-- ===== src/Profile/Manual/Agrees.antt =====
-- Manual claims, and the agreement of resolutions and projection.
use bike_doc.Prelude.{
  Bool, true, false, some, List, [], ◌∷◌, ◌≡◌, arith, refl, inl, inr, sym, subst, All,
}
use bike_doc.Profile.Tree.{is_null, Path_}
use bike_doc.Profile.Tree.Keeps.{is_scalar}
use bike_doc.Profile.Projection.{clears_component, clears_rotor}
use bike_doc.Profile.Claims.{Bike}
use bike_doc.Profile.Gates.{is_path}
use bike_doc.Profile.Derived.{Derivation, resolution_at}
use bike_doc.Profile.Derived.Updates.{resolution_at_path}
use bike_doc.Profile.Recompute.{recompute_derived}
use bike_doc.Profile.Recompute.Agrees.{HasDerived, recompute_derived-Agrees}
use bike_doc.Profile.Recompute.Steps.{then_also-some}
use bike_doc.Profile.Resolver.Agrees.{IsFlat, Agrees, noted-Agrees, found_agrees}
use bike_doc.Profile.Resolver.Written.{written-Agrees}
use bike_doc.Profile.Revision.{Profile}
use bike_doc.Profile.Revision.Saves.{saved-some, put_bike}
use bike_doc.Profile.Manual.Writes.{IsProper, IsHeld, manual_outcome, manual_resolution}
use bike_doc.Profile.Manual.{NewClaim, apply_manual_claim, apply_each, apply_manual_claims}

held-Agrees :
    (registry : List Path_) (path : Path_) (b b' : Bike)
    → IsHeld (resolution_at path b) b b'
    → is_path registry path ≡ true
    → Agrees registry b
    → Agrees registry b'
held-Agrees registry path b b' (e, inl same) known before =
    noted-Agrees registry path b b' before (resolution_at path b) false (e, inl (refl, same))
      (resolution_at_path path b)
      (found_agrees registry path b b' before (resolution_at path b) known refl)
held-Agrees registry path b b' (e, inr (t, fact, _, saved)) known before =
    noted-Agrees registry path b b' before (resolution_at path b) true
      (e, inr (t, fact, refl, saved)) (resolution_at_path path b)
      (found_agrees registry path b b' before (resolution_at path b) known refl)

-- A claim on a canonical field, whose value, if it has one, is a text, a number or a flag, and clears
-- neither a component nor a rotor.
pub record IsPlainWrite (registry : List Path_) (c : NewClaim) : Type 0 where
  pub proper : IsProper c
  pub canonical : is_path registry c.field_path ≡ true
  pub scalar : is_null c.value ≡ false → is_scalar c.value ≡ true
  pub component : clears_component c.field_path c.value ≡ false
  pub rotor : clears_rotor c.field_path c.value ≡ false

module _ (x : Derivation) (flat : IsFlat x.registry) where
  claim-Agrees :
      (c : NewClaim) (b b' : Bike) (w : Bool)
      → IsPlainWrite x.registry c
      → apply_manual_claim x c b ≡ some (w, b')
      → Agrees x.registry b
      → Agrees x.registry b'
  claim-Agrees c b b' w plain e before = elim (manual_outcome x c b b' w plain.proper e) [
    | inl (_, _, held) ↦ held-Agrees x.registry c.field_path b b' held plain.canonical before
    | inr (_, _, v) ↦
        written-Agrees c.field_path c.value
          (manual_resolution x.now c (resolution_at c.field_path b)) b b' v flat plain.canonical
          plain.component plain.rotor plain.scalar before
  ]

  each-Agrees :
      (cs : List NewClaim) (b b' : Bike) (w : Bool)
      → All (IsPlainWrite x.registry) cs
      → apply_each x cs b ≡ some (w, b')
      → Agrees x.registry b
      → Agrees x.registry b'
  unfolding apply_each
  each-Agrees [] b b' w plain e before = subst (Agrees x.registry) (ground arith) before
  each-Agrees (c ∷ cs) b b' w plain e before =
      let (u, b₁, v, e₁, e₂, _) =
        then_also-some (apply_manual_claim x c b) (apply_each x cs) w b' e in
      each-Agrees cs b₁ b' v plain.1 e₂ (claim-Agrees c b b₁ u plain.0 e₁ before)

  -- A manual write keeps the resolutions and the projection in agreement, the derived facts included,
  -- where no claim clears a component or a rotor: if every resolution with a value is of a canonical
  -- field and has the text, number or flag that the projection reads there, then the same holds
  -- afterwards. The claims are on canonical fields, with texts, numbers, flags or no value; the claims
  -- of clears have no value; the canonical paths are leaves that part from each other, and the derived
  -- fields are among them.
  pub apply_manual_claims-Agrees :
      (cs : List NewClaim) (p p' : Profile) (w : Bool)
      → HasDerived x.registry
      → All (IsPlainWrite x.registry) cs
      → apply_manual_claims x cs p ≡ some (w, p')
      → Agrees x.registry p.bike
      → Agrees x.registry p'.bike
  unfolding apply_manual_claims
  apply_manual_claims-Agrees cs p p' w fields plain e before =
      let (b', m, done) = saved-some x.now p _ w p' e in
      let (u, b₁, v, e₁, e₂, _) =
        then_also-some (apply_each x cs p.bike) (recompute_derived x) w b' m in
      subst (λ z. Agrees x.registry z) (sym (put_bike x.now p p' w b' done))
        (recompute_derived-Agrees x flat fields b₁ b' v e₂
          (each-Agrees cs p.bike b₁ u plain e₁ before))
