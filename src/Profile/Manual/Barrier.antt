-- ===== src/Profile/Manual/Barrier.antt =====
-- A field that is cleared by hand stays cleared against what was observed before.
use bike_doc.Prelude.{
  String, Bool, true, false, Option, none, some, List, [], ◌∷◌, ◌≡◌, ◌∙◌, refl, inl, inr, sym, ap,
  subst, All,
}
use bike_doc.Profile.Tree.{Json, null, Path_}
use bike_doc.Profile.Claims.{
  Claim, Resolution, Bike, FieldDefinition, Resolver, one_of, get_resolution,
}
use bike_doc.Profile.Derived.{Derivation, resolution_at}
use bike_doc.Profile.Derived.Updates.{written_here}
use bike_doc.Profile.Recompute.{recompute_derived}
use bike_doc.Profile.Recompute.Agrees.{HasPlainValues, plain_counts}
use bike_doc.Profile.Recompute.Elsewhere.{IsOriginal, recompute_derived_elsewhere}
use bike_doc.Profile.Recompute.Steps.{then_also-some}
use bike_doc.Profile.Resolver.{resolve}
use bike_doc.Profile.Resolver.Barred.{is_past, resolve_barred}
use bike_doc.Profile.Revision.{Profile}
use bike_doc.Profile.Revision.Saves.{saved-some, put_bike}
use bike_doc.Profile.Manual.Writes.{manual_outcome}
use bike_doc.Profile.Manual.Reads.{IsManualTable, one_claim, claim_plain}
use bike_doc.Profile.Manual.Accepted.{set-wrote}
use bike_doc.Profile.Manual.{
  NewClaim, is_cleared, apply_manual_claim, apply_each, apply_manual_claims, new_manual_claim,
  cleared_resolution, set_manual_technical_value, wrote,
}

module _ (x : Derivation) (definition : Path_ → Option FieldDefinition)
    (normalize : Path_ → Json → Option Json) (id : String) (path : Path_) (correction : Bool)
    (p : Profile) where
  abbrev clear_claim : NewClaim
  clear_claim = new_manual_claim id path null null correction

  -- What an accepted clear has passed.
  clear-wrote :
      (p' : Profile)
      → set_manual_technical_value x definition normalize id path null correction p ≡ wrote p'
      → (d : FieldDefinition) × (w : Bool) × (definition path ≡ some d)
        × (one_of ("derived" ∷ "user_managed" ∷ []) d.volatility_class ≡ false)
        × (apply_manual_claims x (clear_claim ∷ []) p ≡ some (w, p'))
  clear-wrote p' e =
      let (d, v, w, f, l, g, a) = set-wrote x definition normalize id path null correction p p' e in
      let same : v ≡ null = ap (λ (o : Option Json). elim o [ none ↦ v | some z ↦ z ]) (sym g) in
      (
        d,
        w,
        f,
        l,
        subst
            (λ z.
              apply_manual_claims x (new_manual_claim id path null z correction ∷ []) p
              ≡ some (w, p'))
            same a,
      )

  abbrev before : Resolution
  before = resolution_at path p.bike

  one_clear :
      (b : Bike) (w : Bool)
      → is_cleared before.resolution_state ≡ false
      → apply_manual_claim x clear_claim p.bike ≡ some (w, b)
      → get_resolution path b.resolutions ≡ some (cleared_resolution x.now clear_claim before)
  one_clear b w h e = elim (manual_outcome x clear_claim p.bike b w (λ k. refl) e) [
    | inl (_, known, _) ↦ cc (h, known)
    | inr (_, _, v) ↦ written_here path null _ p.bike b v
  ]

  clears_saved :
      (p' : Profile) (w : Bool)
      → IsOriginal path
      → HasPlainValues p.bike
      → is_cleared before.resolution_state ≡ false
      → apply_manual_claims x (clear_claim ∷ []) p ≡ some (w, p')
      → get_resolution path p'.bike.resolutions ≡ some (cleared_resolution x.now clear_claim before)
  unfolding apply_manual_claims
  clears_saved p' w original plain h e =
      let (b', m, done) = saved-some x.now p _ w p' e in
      let (u, b₁, v, e₁, e₂, _) =
        then_also-some (apply_each x (clear_claim ∷ []) p.bike) (recompute_derived x) w b' m in
      let (t, f) = one_claim x clear_claim p.bike b₁ u e₁ in
      ap (λ (y : Bike). get_resolution path y.resolutions) (put_bike x.now p p' w b' done)
      ∙ recompute_derived_elsewhere x path original b₁ b' v
          (plain_counts x b₁ (claim_plain x clear_claim p.bike b₁ t (λ k. refl) refl plain f)) e₂
      ∙ one_clear b₁ t h f

-- A clear by hand is a barrier: after an accepted clear of a field that was not cleared, no batch of
-- image claims brings a value back, if those on that field were observed no later than the clear. The
-- resolution of the field is then the one that the clear wrote: cleared, without a value, and with the
-- claim of the clear. No value is an object; the derived fields are not written by hand.
pub manual_clear_holds :
    (x : Derivation) (definition : Path_ → Option FieldDefinition)
    (normalize : Path_ → Json → Option Json) (id : String) (path : Path_) (correction : Bool)
    (p p' : Profile) (y : Resolver) (cs : List Claim) (b : Bike) (w : Bool)
    → IsManualTable x.registry definition normalize
    → HasPlainValues p.bike
    → is_cleared (resolution_at path p.bike).resolution_state ≡ false
    → set_manual_technical_value x definition normalize id path null correction p ≡ wrote p'
    → All (λ c. is_past x.now path c ≡ true) cs
    → resolve y cs p'.bike ≡ some (w, b)
    → get_resolution path b.resolutions
      ≡ some (
          cleared_resolution x.now
            (new_manual_claim id path null null correction)
            (resolution_at path p.bike))
manual_clear_holds x definition normalize id path correction p p' y cs b w table plain h e past r =
    let (d, u, f, l, a) = clear-wrote x definition normalize id path correction p p' e in
    resolve_barred y path
      (cleared_resolution x.now (new_manual_claim id path null null correction)
        (resolution_at path p.bike))
      x.now refl refl cs p'.bike b w r past
      (clears_saved x definition normalize id path correction p p' u (table.original path d f l)
        plain h a)
