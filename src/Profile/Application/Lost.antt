-- ===== src/Profile/Application/Lost.antt =====
-- A field that loses its value has its resolution reset, and a field without one gets none.
use bike_doc.Prelude.{
  ℕ, true, false, not, ◌||◌, none, some, List, [], ◌∷◌, ◌≡◌, ◌∙◌, arith, Bool-cases, inl, inr, sym,
  ap, subst,
}
use bike_doc.Profile.Tree.{Json, is_null, Path_}
use bike_doc.Profile.Projection.{path_eq}
use bike_doc.Profile.Claims.{Resolution, Bike, get_resolution}
use bike_doc.Profile.Claims.Found.{path_eq_sound, get_resolution_path, get-save_other}
use bike_doc.Profile.Gates.{is_path}
use bike_doc.Profile.Application.{retired, is_lost, retire_one, retire_invalidated}
use bike_doc.Profile.Application.Fates.{
  retire_found, retire_kept, retire_same, retire_step, retire_invalidated-Fate,
}

module _ (now : ℕ) (previous next : Json) (retained q : Path_) where
  -- What is reset stays reset.
  retired_stays :
      (ps : List Path_) (r : Resolution) (b : Bike)
      → get_resolution q b.resolutions ≡ some (retired now r)
      → get_resolution q (retire_invalidated now previous next retained ps b).resolutions
        ≡ some (retired now r)
  retired_stays ps r b e =
      elim (retire_invalidated-Fate now previous next retained q (retired now r) ps b (inl e)) [
        | inl f ↦ f
        | inr (f, _, _) ↦ f
      ]

  retired_at :
      (p : Path_) (r : Resolution) (b : Bike)
      → get_resolution q b.resolutions ≡ some r
      → is_null r.current_value ≡ false
      → is_lost previous next q ≡ true
      → path_eq q retained ≡ false
      → path_eq p q ≡ true
      → get_resolution q (retire_one now previous next retained p b).resolutions
        ≡ some (retired now r)
  retired_at p r b e n l d h =
      let same : p ≡ q = path_eq_sound p q h in
      let at : get_resolution p b.resolutions ≡ some r =
        ap (λ x. get_resolution x b.resolutions) same ∙ e in
      ap (λ x. get_resolution q x)
        (retire_found now previous next retained q r p r b at
          (subst (λ x. (path_eq x retained || not (is_lost previous next x)) ≡ false) (sym same)
            (ground arith))
          n)
      ∙ retire_same now previous next retained q r p r r b at e h

  pub retire_lost :
      (ps : List Path_) (r : Resolution) (b : Bike)
      → get_resolution q b.resolutions ≡ some r
      → is_null r.current_value ≡ false
      → is_lost previous next q ≡ true
      → path_eq q retained ≡ false
      → is_path ps q ≡ true
      → get_resolution q (retire_invalidated now previous next retained ps b).resolutions
        ≡ some (retired now r)
  unfolding retire_invalidated
  retire_lost [] r b e n l d h = cc
  retire_lost (p ∷ ps) r b e n l d h = elim (Bool-cases (path_eq p q)) [
    | inl at ↦
        retired_stays ps r (retire_one now previous next retained p b) (retired_at p r b e n l d at)
    | inr other ↦ elim (retire_step now previous next retained q r p r b e) [
      | inl f ↦ retire_lost ps r (retire_one now previous next retained p b) f n l d (ground arith)
      | inr (f, _, _, _) ↦ retired_stays ps r (retire_one now previous next retained p b) f
    ]
  ]

  retire_one-none :
      (p : Path_) (r : Resolution) (b : Bike)
      → get_resolution q b.resolutions ≡ none
      → get_resolution q (retire_one now previous next retained p b).resolutions ≡ none
  retire_one-none p r b e = elim (retire_kept now previous next retained q r p b) [
    | inl same ↦ ap (λ x. get_resolution q x) same ∙ e
    | inr (s, f, h, n) ↦ elim (Bool-cases (path_eq p q)) [
      | inl at ↦ cc (e, f, ap (λ x. get_resolution x b.resolutions) (path_eq_sound p q at))
      | inr other ↦
          ap (λ x. get_resolution q x) (retire_found now previous next retained q r p s b f h n)
          ∙ get-save_other (retired now s) q b.resolutions
              (ap (λ x. path_eq x q) (get_resolution_path p b.resolutions s f) ∙ other)
          ∙ e
    ]
  ]

  pub retire_none :
      (ps : List Path_) (r : Resolution) (b : Bike)
      → get_resolution q b.resolutions ≡ none
      → get_resolution q (retire_invalidated now previous next retained ps b).resolutions ≡ none
  unfolding retire_invalidated
  retire_none [] r b e = e
  retire_none (p ∷ ps) r b e =
      retire_none ps r (retire_one now previous next retained p b) (retire_one-none p r b e)
