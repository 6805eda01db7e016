-- ===== src/Profile/Application/Applied.antt =====
-- A profile with a claim applied: the resolution of its field, and those of the others.
use bike_doc.Prelude.{
  String, true, false, none, some, List, ◌≡◌, ◌⊎◌, ◌∙◌, arith, refl, Option-cases, inl, inr, ap,
  subst,
}
use bike_doc.Profile.Tree.{Json, is_null, Path_, technical_value}
use bike_doc.Profile.Projection.{path_eq, with_technical_value}
use bike_doc.Profile.Claims.{
  Claim, Confidence, Resolution, Bike, Resolver, get_resolution, save_resolution, set_disposition,
  applied,
}
use bike_doc.Profile.Claims.Found.{get-save_same, get-save_other}
use bike_doc.Profile.Application.{
  supersede_current_claim, retired, is_lost, retire_invalidated, applied_resolution, apply_claim,
}
use bike_doc.Profile.Application.Fates.{retire_invalidated-Fate}

-- What an applied claim leaves behind.
pub record IsApplied (x : Resolver) (c : Claim) (confidence : Confidence) (r : Resolution)
    (b b' : Bike) : Type 0 where
  pub next : Json
  pub claims : List Claim
  pub projected :
      with_technical_value x.registry b.technical_profile c.field_path c.value ≡ some next
  pub profile : b'.technical_profile ≡ next
  pub resolutions :
      b'.resolutions
      ≡ save_resolution
          (applied_resolution x.now c confidence r)
          (retire_invalidated x.now b.technical_profile next c.field_path x.registry
            (record b { claims = claims })).resolutions

-- The profile with the claim applied, where the projection accepts it.
abbrev applied_to : Resolver → Claim → Confidence → Resolution → Json → List Claim → Bike → Bike
applied_to x c confidence r next claims b =
    let kept : Bike =
      retire_invalidated x.now b.technical_profile next c.field_path x.registry
        (record b { claims = claims }) in
    record kept {
      technical_profile = next;
      resolutions = save_resolution (applied_resolution x.now c confidence r) kept.resolutions;
    }

apply_claim_found :
    (x : Resolver) (c : Claim) (reason : String) (confidence : Confidence) (r : Resolution)
    (b : Bike) (next : Json)
    → with_technical_value x.registry b.technical_profile c.field_path c.value ≡ some next
    → apply_claim x c reason confidence r b
      ≡ some (
          applied_to x c confidence r next
            (supersede_current_claim r (set_disposition c.id applied reason b.claims))
            b)
unfolding apply_claim
apply_claim_found x c reason confidence r b next e = rw (e, apply_claim) refl

apply_claim_refused :
    (x : Resolver) (c : Claim) (reason : String) (confidence : Confidence) (r : Resolution)
    (b : Bike)
    → with_technical_value x.registry b.technical_profile c.field_path c.value ≡ none
    → apply_claim x c reason confidence r b ≡ none
unfolding apply_claim
apply_claim_refused x c reason confidence r b e = rw (e, apply_claim) refl

pub apply_claim-IsApplied :
    (x : Resolver) (c : Claim) (reason : String) (confidence : Confidence) (r : Resolution)
    (b b' : Bike)
    → apply_claim x c reason confidence r b ≡ some b'
    → IsApplied x c confidence r b b'
apply_claim-IsApplied x c reason confidence r b b' e =
    elim (Option-cases (with_technical_value x.registry b.technical_profile c.field_path c.value)) [
      | inl n ↦ absurd (cc (e, apply_claim_refused x c reason confidence r b n))
      | inr (next, n) ↦
          let claims : List Claim =
            supersede_current_claim r (set_disposition c.id applied reason b.claims) in
          let done : b' ≡ applied_to x c confidence r next claims b =
            cc (e, apply_claim_found x c reason confidence r b next n) in
          record {
            next = next;
            claims = claims;
            projected = n;
            profile = ap (λ (y : Bike). y.technical_profile) done;
            resolutions = ap (λ (y : Bike). y.resolutions) done;
          }
    ]

lost_null :
    (previous next : Json) (q : Path_)
    → is_lost previous next q ≡ true
    → is_null (technical_value q next) ≡ true
lost_null previous next q h = ground arith

-- The resolution of another field, when the claim is applied.
pub applied_elsewhere :
    (x : Resolver) (c : Claim) (confidence : Confidence) (r s : Resolution) (q : Path_)
    (b b' : Bike)
    → IsApplied x c confidence r b b'
    → r.field_path ≡ c.field_path
    → path_eq c.field_path q ≡ false
    → get_resolution q b.resolutions ≡ some s
    → (get_resolution q b'.resolutions ≡ some s)
      ⊎ ((get_resolution q b'.resolutions ≡ some (retired x.now s))
          × (is_null (technical_value q b'.technical_profile) ≡ true))
applied_elsewhere x c confidence r s q b b' v at h f =
    let start : Bike = record b { claims = v.claims } in
    let kept : Bike =
      retire_invalidated x.now b.technical_profile v.next c.field_path x.registry start in
    let read : get_resolution q b'.resolutions ≡ get_resolution q kept.resolutions =
      ap (λ y. get_resolution q y) v.resolutions
      ∙ get-save_other (applied_resolution x.now c confidence r) q kept.resolutions
          (ap (λ y. path_eq y q) at ∙ h) in
    elim (retire_invalidated-Fate x.now b.technical_profile v.next c.field_path q s x.registry start
      (inl f)) [
        | inl e ↦ inl (read ∙ e)
        | inr (e, l, _) ↦ inr (
          read ∙ e,
          ap (λ y. is_null (technical_value q y)) v.profile
              ∙ lost_null b.technical_profile v.next q l,
        )
      ]

-- The resolution of the claim's own field.
pub applied_here :
    (x : Resolver) (c : Claim) (confidence : Confidence) (r : Resolution) (b b' : Bike)
    → IsApplied x c confidence r b b'
    → r.field_path ≡ c.field_path
    → get_resolution c.field_path b'.resolutions ≡ some (applied_resolution x.now c confidence r)
applied_here x c confidence r b b' v at =
    ap (λ y. get_resolution c.field_path y) v.resolutions
    ∙ subst
        (λ y.
          get_resolution y (
            save_resolution (applied_resolution x.now c confidence r)
              (retire_invalidated x.now b.technical_profile v.next c.field_path x.registry
                (record b { claims = v.claims })).resolutions)
          ≡ some (applied_resolution x.now c confidence r))
        at (get-save_same (applied_resolution x.now c confidence r) _)
