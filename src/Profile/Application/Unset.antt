-- ===== src/Profile/Application/Unset.antt =====
-- The resolution of a field without a value, when a claim on another field is applied.
use bike_doc.Prelude.{true, false, some, List, [], ◌∷◌, ◌≡◌, ◌∙◌, inl, inr, ap, ℕ}
use bike_doc.Profile.Tree.{Json, is_null, Path_}
use bike_doc.Profile.Projection.{path_eq}
use bike_doc.Profile.Claims.{Claim, Confidence, Resolution, Bike, Resolver, get_resolution}
use bike_doc.Profile.Claims.Found.{get-save_other}
use bike_doc.Profile.Application.{retire_one, retire_invalidated, applied_resolution}
use bike_doc.Profile.Application.Fates.{retire_step}
use bike_doc.Profile.Application.Applied.{IsApplied}

-- Nothing is reset where there is no value.
retire_unset :
    (now : ℕ) (previous next : Json) (retained q : Path_) (ps : List Path_) (r : Resolution)
    (b : Bike)
    → get_resolution q b.resolutions ≡ some r
    → is_null r.current_value ≡ true
    → get_resolution q (retire_invalidated now previous next retained ps b).resolutions ≡ some r
unfolding retire_invalidated
retire_unset now previous next retained q [] r b e n = e
retire_unset now previous next retained q (p ∷ ps) r b e n =
    elim (retire_step now previous next retained q r p r b e) [
      | inl f ↦
          retire_unset now previous next retained q ps r (retire_one now previous next retained p b)
            f n
      | inr (_, _, _, k) ↦ cc (n, k)
    ]

pub applied_unset :
    (x : Resolver) (c : Claim) (confidence : Confidence) (r s : Resolution) (q : Path_)
    (b b' : Bike)
    → IsApplied x c confidence r b b'
    → r.field_path ≡ c.field_path
    → path_eq c.field_path q ≡ false
    → get_resolution q b.resolutions ≡ some s
    → is_null s.current_value ≡ true
    → get_resolution q b'.resolutions ≡ some s
applied_unset x c confidence r s q b b' v at h f n =
    ap (λ y. get_resolution q y) v.resolutions
    ∙ get-save_other (applied_resolution x.now c confidence r) q _ (ap (λ y. path_eq y q) at ∙ h)
    ∙ retire_unset x.now b.technical_profile v.next c.field_path q x.registry s
        (record b { claims = v.claims }) f n
